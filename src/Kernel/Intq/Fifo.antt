-- ===== src/Kernel/Intq/Fifo.antt =====
-- The buffer of intq.c as a list of bytes, first in, first out.
use mathlib.Core.List.{append-nil, append_assoc, head-eq_of_cons-eq, tail-eq_of_cons-eq}
use cse130_git.Prelude.{
  ℕ, zero, suc, ◌+◌, ◌-◌, ◌%◌, ◌≡◌, ◌<◌, Option, none, some, List, [], ◌∷◌, ◌++◌, true, false, ◌==◌,
  update, length, length-append, Option-cases, inl, inr, arith, refl, ap, sym, ◌∙◌,
}
use cse130_git.Kernel.State.{Kernel}
use cse130_git.Kernel.Threads.{thread_unblock}
use cse130_git.Kernel.Intq.{
  Intq, next, intq_empty, intq_full, Call, returns, intq_getc, intq_putc, signal_not_empty,
  signal_not_full, finished,
}

-- The bytes at `n` places from one on.
abbrev items : (ℕ → ℕ) → ℕ → ℕ → List ℕ
items buf at zero = []
items buf at (suc n) = buf at ∷ items buf (next at) n

abbrev size : Intq → ℕ
size q = (q.head + 64 - q.tail) % 64

-- From the tail up to the head, round the end of the buffer.
unfoldable pub contents : Intq → List ℕ
contents q = items q.buf q.tail (size q)

abbrev pub IsValid : Intq → Type 0
IsValid q = q.head < 64 × q.tail < 64

length-items : (buf : ℕ → ℕ) (at n : ℕ) → length (items buf at n) ≡ n
length-items buf at zero = refl
length-items buf at (suc n) = ap suc (length-items buf (next at) n)

pub length-contents : (q : Intq) → length (contents q) ≡ size q
unfolding contents
length-contents q = length-items q.buf q.tail (size q)

-- A byte that is stored behind the others.
items-update :
    (n i at x : ℕ) (buf : ℕ → ℕ)
    → i < 64
    → (i + n) % 64 ≡ at
    → n < 64
    → items (update buf at x) i (suc n) ≡ items buf i n ++ x ∷ []
items-update zero i at x buf h e l =
    let hit : at == i ≡ true = ground (arith, e, h) in rw (hit) refl
items-update (suc n) i at x buf h e l =
    let miss : at == i ≡ false = ground (arith, e, h, l) in
    let step : (next i + n) % 64 ≡ at = omega (arith, e) in
    rw (miss)
      (ap (◌∷◌ (buf i)) (items-update n (next i) at x buf (omega arith) step (omega (arith, l))))

-- What waking the other side's sleeper, if there is one, makes of the kernel: the end of a call that has
-- changed the buffer.
abbrev pub woken : Option ℕ → Kernel → Option Kernel
woken none k = some k
woken (some t) k = thread_unblock k t

abbrev pub ends : {A : Type 0} → A → Intq → Option Kernel → Option (Call A)
ends x q none = none
ends x q (some k) = some (returns x q k)

signal_not_full_lem :
    {A : Type 0} (x : A) (q : Intq) (k : Kernel)
    → intq_full q ≡ false
    → finished x (signal_not_full q k) ≡ ends x (record q { not_full = none }) (woken q.not_full k)
signal_not_full_lem x q k e = elim (Option-cases q.not_full) [
  | inl n ↦ rw (signal_not_full, e, n) (ap (λ o. some (returns x (record q { not_full = o }) k)) n)
  | inr (t, n) ↦
      rw (signal_not_full, e, n)
        (elim (Option-cases (thread_unblock k t)) [
          | inl m ↦ rw (m) refl
          | inr (k', m) ↦ rw (m) refl
        ])
]

signal_not_empty_lem :
    {A : Type 0} (x : A) (q : Intq) (k : Kernel)
    → intq_empty q ≡ false
    → finished x (signal_not_empty q k)
      ≡ ends x (record q { not_empty = none }) (woken q.not_empty k)
signal_not_empty_lem x q k e = elim (Option-cases q.not_empty) [
  | inl n ↦
      rw (signal_not_empty, e, n) (ap (λ o. some (returns x (record q { not_empty = o }) k)) n)
  | inr (t, n) ↦
      rw (signal_not_empty, e, n)
        (elim (Option-cases (thread_unblock k t)) [
          | inl m ↦ rw (m) refl
          | inr (k', m) ↦ rw (m) refl
        ])
]

-- `intq_getc` of a buffer that is not empty returns its first byte and takes it out of the buffer, and
-- wakes the thread that waits for room.
pub intq_getc_lem :
    (q : Intq) (k : Kernel) (b : ℕ) (bs : List ℕ)
    → IsValid q
    → contents q ≡ b ∷ bs
    → (q' : Intq) × (intq_getc q k ≡ ends b q' (woken q.not_full k)
        × (IsValid q' × (contents q' ≡ bs × (q'.not_full ≡ none × q'.not_empty ≡ q.not_empty))))
unfolding intq_getc contents
intq_getc_lem q k b bs v e =
    let n : size q ≡ suc (length bs) = sym (length-contents q) ∙ ap length e in
    let some_bytes : q.head == q.tail ≡ false = ground (arith, n, v.0, v.1) in
    let room : next q.head == next q.tail ≡ false = ground (arith, n, v.0, v.1) in
    let split : q.buf q.tail ∷ items q.buf (next q.tail) (length bs) ≡ b ∷ bs = rw (n) at e in
    let q' : Intq = record q { tail = next q.tail; not_full = none } in
    let less : size q' ≡ length bs = omega (arith, n, v.0, v.1) in
    (
      q',
      (
        rw (intq_getc, some_bytes, sym (head-eq_of_cons-eq split))
            (signal_not_full_lem (q.buf q.tail) (record q { tail = next q.tail }) k room),
        ((v.0, omega arith), (rw (less) (tail-eq_of_cons-eq split), (refl, refl))),
      ),
    )

-- `intq_putc` to a buffer of fewer than 63 bytes adds the byte behind the others, and wakes the thread that
-- waits for one.
pub intq_putc_lem :
    (q : Intq) (k : Kernel) (b : ℕ)
    → IsValid q
    → length (contents q) < 63
    → (q' : Intq) × (intq_putc q b k ≡ ends tt q' (woken q.not_empty k)
        × (IsValid q'
            × (contents q' ≡ contents q ++ b ∷ []
                × (q'.not_empty ≡ none × q'.not_full ≡ q.not_full))))
unfolding intq_putc contents
intq_putc_lem q k b v room =
    let n : size q < 63 = omega (arith, room, length-contents q) in
    let not_full : next q.head == q.tail ≡ false = ground (arith, n, v.0, v.1) in
    let q' : Intq = record q {
      buf = update q.buf q.head b;
      head = next q.head;
      not_empty = none;
    } in
    let more : size q' ≡ suc (size q) = omega (arith, n, v.0, v.1) in
    let place : (q.tail + size q) % 64 ≡ q.head = omega (arith, n, v.0, v.1) in
    (
      q',
      (
        rw (intq_putc, not_full)
            (rw (not_full) at (
              signal_not_empty_lem tt (record q { buf = update q.buf q.head b; head = next q.head })
                k not_full)),
        (
          (omega arith, v.1),
          (
            rw (more) (items-update (size q) q.tail q.head b q.buf v.1 place (omega (arith, n))),
            (refl, refl),
          ),
        ),
      ),
    )

-- Bytes put one after the other; none where a call does not return.
unfoldable pub put_all : List ℕ → Intq → Kernel → Option (Intq × Kernel)
put_all [] q k = some (q, k)
put_all (b ∷ bs) q k = elim (intq_putc q b k) [
  | some (returns x q' k') ↦ put_all bs q' k'
  | _ ↦ none
]

-- As many bytes taken as are asked for.
unfoldable pub get_all : ℕ → Intq → Kernel → Option (List ℕ)
get_all zero q k = some []
get_all (suc n) q k = elim (intq_getc q k) [
  | some (returns b q' k') ↦ elim (get_all n q' k') [ none ↦ none | some bs ↦ some (b ∷ bs) ]
  | _ ↦ none
]

abbrev pub Alone : Intq → Type 0
Alone q = q.not_full ≡ none × q.not_empty ≡ none

get_all_lem :
    (bs : List ℕ) (q : Intq) (k : Kernel)
    → IsValid q
    → Alone q
    → contents q ≡ bs
    → get_all (length bs) q k ≡ some bs
unfolding get_all
get_all_lem [] q k v a e = refl
get_all_lem (b ∷ bs) q k v a e =
    let (q', (f, (v', (c, n)))) = intq_getc_lem q k b bs v e in
    let g : intq_getc q k ≡ some (returns b q' k) = f ∙ ap (λ o. ends b q' (woken o k)) a.0 in
    rw (get_all, g) (rw (get_all_lem bs q' k v' (n.0, n.1 ∙ a.1) c) refl)

put_all_lem :
    (bs : List ℕ) (q : Intq) (k : Kernel)
    → IsValid q
    → Alone q
    → length (contents q) + length bs < 64
    → (q' : Intq) × (put_all bs q k ≡ some (q', k)
        × (IsValid q' × (Alone q' × contents q' ≡ contents q ++ bs)))
unfolding put_all
put_all_lem [] q k v a room = (q, (refl, (v, (a, sym (append-nil (contents q))))))
put_all_lem (b ∷ bs) q k v a room =
    let (q1, (f, (v1, (c, n)))) = intq_putc_lem q k b v (omega (arith, room)) in
    let g : intq_putc q b k ≡ some (returns tt q1 k) = f ∙ ap (λ o. ends tt q1 (woken o k)) a.1 in
    let len = ap length c ∙ length-append (contents q) (b ∷ []) in
    let (q2, (f2, (v2, (a2, c2)))) =
      put_all_lem bs q1 k v1 (n.1 ∙ a.0, n.0) (omega (arith, room, len)) in
    rw (put_all, g)
      (q2, (f2, (v2, (a2, c2 ∙ ap (λ xs. xs ++ bs) c ∙ append_assoc (contents q) (b ∷ []) bs))))

-- Fewer than 64 bytes that are put into an empty buffer on which no thread waits come out again in their
-- order, and no call sleeps.
pub get_all-put_all :
    (bs : List ℕ) (q : Intq) (k : Kernel)
    → IsValid q
    → Alone q
    → contents q ≡ []
    → length bs < 64
    → (q' : Intq) × (put_all bs q k ≡ some (q', k) × get_all (length bs) q' k ≡ some bs)
get_all-put_all bs q k v a e room =
    let len : length (contents q) ≡ 0 = ap length e in
    let (q', (f, (v', (a', c)))) = put_all_lem bs q k v a (omega (arith, room, len)) in
    (q', (f, get_all_lem bs q' k v' a' (c ∙ ap (λ xs. xs ++ bs) e)))
