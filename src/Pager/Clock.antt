-- ===== src/Pager/Clock.antt =====
-- The loop of second chance and of the circular queue: that it ends, and which page it takes.
use mathlib.Core.Path.{ap₂, subst}
use mathlib.Core.List.{append_assoc, append-nil, head-eq_of_cons-eq, tail-eq_of_cons-eq}
use cse130_git.Prelude.{
  update, ℕ, suc, ◌+◌, ◌≡◌, ◌≢◌, refl, sym, ap, ◌∙◌, ◌⊎◌, inl, inr, some, List, [], ◌∷◌, ◌++◌, true,
  false, ◌==◌, ==_refl, if◌then◌else◌, length, length-append, All, arith, Bool-cases,
}
use cse130_git.Queue.{QueueLib}
use cse130_git.Pager.Search.{page_of}
use cse130_git.Pager.Request.{spin, replace}
use cse130_git.Pager.Pages.{has, has-append, Distinct}

-- The bits after the pages `xs` have had theirs changed.
abbrev pub clear_all : (ℕ → ℕ) → ℕ → List ℕ → ℕ → ℕ
clear_all bits clear [] = bits
clear_all bits clear (x ∷ xs) = clear_all (update bits x clear) clear xs

-- The bit of each page is `ref`.
abbrev pub AllRef : ℕ → (ℕ → ℕ) → List ℕ → Type 0
AllRef ref bits = All (λ x. (bits x == ref) ≡ true)

AllRef-update :
    (ref clear x : ℕ) (bits : ℕ → ℕ) (xs : List ℕ)
    → has x xs ≡ false
    → AllRef ref bits xs
    → AllRef ref (update bits x clear) xs
AllRef-update ref clear x bits [] e h = tt
AllRef-update ref clear x bits (y ∷ ys) e h =
    (ground (arith, h.0), AllRef-update ref clear x bits ys (ground arith) h.1)

pub clear_all_lem :
    (bits : ℕ → ℕ) (clear y : ℕ) (xs : List ℕ)
    → clear_all bits clear xs y ≡ (if has y xs then clear else bits y)
clear_all_lem bits clear y [] = refl
clear_all_lem bits clear y (x ∷ xs) = ground (arith, clear_all_lem (update bits x clear) clear y xs)

-- After the change no bit is `ref` that was not so before.
stops :
    (bits : ℕ → ℕ) (ref clear v : ℕ) (xs : List ℕ)
    → ref ≢ clear
    → (has v xs ≡ true) ⊎ ((bits v == ref) ≡ false)
    → (clear_all bits clear xs v == ref) ≡ false
stops bits ref clear v xs ne h = ground (arith, clear_all_lem bits clear v xs)

-- Where the pages `xs` are split at the first whose bit is not `ref`.
split :
    (ref : ℕ) (bits : ℕ → ℕ) (xs : List ℕ)
    → AllRef ref bits xs
      ⊎ ((pre : List ℕ) × (v : ℕ) × (post : List ℕ) × (xs ≡ pre ++ v ∷ post)
          × AllRef ref bits pre
          × ((bits v == ref) ≡ false))
split ref bits [] = inl tt
split ref bits (x ∷ xs) = elim (Bool-cases (bits x == ref)) [
  | inr miss ↦ inr ([], x, xs, refl, tt, miss)
  | inl hit ↦ elim (split ref bits xs) [
    | inl all ↦ inl (hit, all)
    | inr (pre, v, post, e, h, m) ↦ inr (x ∷ pre, v, post, ap (◌∷◌ x) e, (hit, h), m)
  ]
]

-- How a queue of pages `xs` becomes `ys` and gives one page away, and which pages have their bit
-- changed: the first page whose bit is not `ref`, with the pages before it moved to the tail, or the
-- head, where all bits are `ref`.
pub data Turn (ref : ℕ) (bits : ℕ → ℕ) (xs ys cleared : List ℕ) : Type 0 where
  first_other :
      (v : ℕ) (post : List ℕ)
      → xs ≡ cleared ++ v ∷ post
      → AllRef ref bits cleared
      → (bits v == ref) ≡ false
      → ys ≡ post ++ cleared
      → Turn ref bits xs ys cleared
  full_turn :
      (x : ℕ) → xs ≡ x ∷ ys → AllRef ref bits xs → cleared ≡ xs → Turn ref bits xs ys cleared

pub Distinct-append_left : (xs ys : List ℕ) → Distinct (xs ++ ys) → Distinct xs
Distinct-append_left [] ys h = tt
Distinct-append_left (x ∷ xs) ys h =
    (ground (arith, has-append x xs ys), Distinct-append_left xs ys h.1)

module _ (P : QueueLib ℕ) where
  pop_lem :
      (q : P.Queue) {x : ℕ} {xs : List ℕ}
      → P.items q ≡ x ∷ xs
      → page_of (P.queue_dequeue q).0 ∷ P.items (P.queue_dequeue q).1 ≡ x ∷ xs
  pop_lem q e = rw (P.dequeue-head q, P.items-dequeue q, e)

  -- After an insertion the queue has a head.
  pop-enqueue :
      (q : P.Queue) (t : ℕ)
      → let next = P.queue_dequeue (P.queue_enqueue q t) in
        page_of next.0 ∷ P.items next.1 ≡ P.items q ++ t ∷ []
  pop-enqueue q t = go (P.items q) (P.items-enqueue q t)
    where
      go :
          (ys : List ℕ)
          → P.items (P.queue_enqueue q t) ≡ ys ++ t ∷ []
          → page_of (P.queue_dequeue (P.queue_enqueue q t)).0
              ∷ P.items (P.queue_dequeue (P.queue_enqueue q t)).1
            ≡ ys ++ t ∷ []
      go [] e = pop_lem (P.queue_enqueue q t) e
      go (y ∷ ys) e = pop_lem (P.queue_enqueue q t) e

  spin_step :
      (ref clear n temp : ℕ) (q : P.Queue) (bits : ℕ → ℕ)
      → (bits temp == ref) ≡ true
      → let next = P.queue_dequeue (P.queue_enqueue q temp) in
        spin P (suc n) ref clear temp q bits
        ≡ spin P n ref clear (page_of next.0) next.1 (update bits temp clear)
  unfolding spin
  spin_step ref clear n temp q bits e = rw (e, spin)

  spin_stop :
      (ref clear n temp : ℕ) (q : P.Queue) (bits : ℕ → ℕ)
      → (bits temp == ref) ≡ false
      → spin P (suc n) ref clear temp q bits ≡ some (q, bits)
  unfolding spin
  spin_stop ref clear n temp q bits e = rw (e, spin)

  -- The loop goes over pages `pre` whose bits are `ref`, and they end up behind the others.
  advance :
      (ref clear n : ℕ) (pre suf : List ℕ) (temp : ℕ) (q : P.Queue) (bits : ℕ → ℕ)
      → temp ∷ P.items q ≡ pre ++ suf
      → Distinct pre
      → AllRef ref bits pre
      → (temp' : ℕ) × (q' : P.Queue) × (temp' ∷ P.items q' ≡ suf ++ pre)
        × (spin P (length pre + n) ref clear temp q bits
            ≡ spin P n ref clear temp' q' (clear_all bits clear pre))
  advance ref clear n [] suf temp q bits e d h =
      (temp, q, e ∙ sym (append-nil suf), ap (λ m. spin P m ref clear temp q bits) (omega arith))
  advance ref clear n (x ∷ pre) suf temp q bits e d h =
      let same : temp ≡ x = head-eq_of_cons-eq e in
      let left : P.items q ≡ pre ++ suf = tail-eq_of_cons-eq e in
      let next = P.queue_dequeue (P.queue_enqueue q temp) in
      let order : page_of next.0 ∷ P.items next.1 ≡ pre ++ (suf ++ x ∷ []) =
        pop-enqueue q temp
        ∙ (ap₂ (λ (ys : List ℕ) t. ys ++ t ∷ []) left same ∙ append_assoc pre suf (x ∷ [])) in
      let (temp', q', e', r) =
        advance ref clear n pre (suf ++ x ∷ []) (page_of next.0) next.1 (update bits x clear) order
          d.1 (AllRef-update ref clear x bits pre d.0 h.1) in
      (
        temp',
        q',
        e' ∙ append_assoc suf (x ∷ []) pre,
        ap (λ m. spin P m ref clear temp q bits) (omega arith)
            ∙ (spin_step ref clear (length pre + n) temp q bits (ap (λ t. bits t == ref) same ∙ h.0)
                ∙ (ap
                      (λ t.
                        spin P (length pre + n) ref clear (page_of next.0) next.1
                          (update bits t clear))
                      same
                    ∙ r)),
      )

  -- With distinct pages in the queue and two different values for the bit, the loop ends, and
  -- leaves the queue and the bits that `Turn` describes.
  pub replace_turns :
      (ref clear : ℕ) (q : P.Queue) (bits : ℕ → ℕ)
      → ref ≢ clear
      → Distinct (P.items q)
      → P.items q ≢ []
      → (q' : P.Queue) × (cleared : List ℕ) × (replace P ref clear q bits
          ≡ some (q', clear_all bits clear cleared))
        × Turn ref bits (P.items q) (P.items q') cleared
  unfolding replace
  replace_turns ref clear q bits ne d full = go (P.items q) refl d full
    where
      first : ℕ
      first = page_of (P.queue_dequeue q).0

      rest : P.Queue
      rest = (P.queue_dequeue q).1

      size : P.queue_size q ≡ length (P.items q)
      size = P.size_lem q

      fuel :
          (m : ℕ)
          → P.queue_size q + 2 ≡ m
          → replace P ref clear q bits ≡ spin P m ref clear first rest bits
      fuel m e = ap (λ k. spin P k ref clear first rest bits) e

      go :
          (xs : List ℕ)
          → P.items q ≡ xs
          → Distinct xs
          → xs ≢ []
          → (q' : P.Queue) × (cleared : List ℕ) × (replace P ref clear q bits
              ≡ some (q', clear_all bits clear cleared))
            × Turn ref bits xs (P.items q') cleared
      go [] e d f = absurd (f refl)
      go (x ∷ xs) e d f =
          let order = pop_lem q e in
          elim (split ref bits (x ∷ xs)) [
            | inl all ↦
                let (t, q', e', r) =
                  advance ref clear 2 (x ∷ xs) [] first rest bits
                    (order ∙ sym (append-nil (x ∷ xs))) d all in
                let hit : (clear_all bits clear (x ∷ xs) t == ref) ≡ false =
                  stops bits ref clear t (x ∷ xs) ne
                    (inl (ground (arith, head-eq_of_cons-eq e', ==_refl x))) in
                (
                  q',
                  x ∷ xs,
                  fuel (length (x ∷ xs) + 2) (omega (arith, size, ap length e))
                      ∙ (r ∙ spin_stop ref clear 1 t q' (clear_all bits clear (x ∷ xs)) hit),
                  full_turn x (ap (◌∷◌ x) (sym (tail-eq_of_cons-eq e'))) all refl,
                )
            | inr (pre, v, post, es, h, m) ↦
                let (t, q', e', r) =
                  advance ref clear (suc (length post + 2)) pre (v ∷ post) first rest bits
                    (order ∙ es) (Distinct-append_left pre (v ∷ post) (subst Distinct es d)) h in
                let hit : (clear_all bits clear pre t == ref) ≡ false =
                  stops bits ref clear t pre ne
                    (inr (ap (λ u. bits u == ref) (head-eq_of_cons-eq e') ∙ m)) in
                (
                  q',
                  pre,
                  fuel (length pre + suc (length post + 2)) (
                        omega
                          (arith, size, ap length e, ap length es, length-append pre (v ∷ post)))
                      ∙ (r
                          ∙ spin_stop ref clear (length post + 2) t q' (clear_all bits clear pre)
                              hit),
                  first_other v post es h m (tail-eq_of_cons-eq e'),
                )
          ]
