-- ===== src/Kernel/Timer.antt =====
-- devices/timer.c of Lab1 and of Lab2: sleeping, and the timer's interrupt.
use cse130_git.Prelude.{
  ℕ, ◌+◌, Option, none, some, List, [], ◌∷◌, true, false, ltb, leb, ◌==◌, if◌then◌else◌, update,
}
use cse130_git.Kernel.State.{Kernel, priority_of}
use cse130_git.Kernel.Threads.{thread_block, thread_unblock, thread_yield, thread_tick}

abbrev pub wake_up_tick_of : Kernel → ℕ → ℕ
wake_up_tick_of k t = (k.thread t).wake_up_tick

-- The loop of Lab1's `timer_sleep`: before the first thread that wakes at the same tick or later.
abbrev pub place_sleeper : (ℕ → ℕ) → List ℕ → ℕ → List ℕ
place_sleeper wake [] t = t ∷ []
place_sleeper wake (x ∷ xs) t =
    let rest = place_sleeper wake xs t in if leb (wake t) (wake x) then t ∷ x ∷ xs else x ∷ rest

-- The inner loop of Lab2's, from the first thread of the same tick on: before the first thread of no
-- higher priority, whatever its tick.
abbrev pub place_by_priority : (ℕ → ℕ) → List ℕ → ℕ → List ℕ
place_by_priority priority [] t = t ∷ []
place_by_priority priority (x ∷ xs) t =
    let rest = place_by_priority priority xs t in
    if leb (priority x) (priority t) then t ∷ x ∷ xs else x ∷ rest

abbrev pub place_sleeper2 : (priority wake : ℕ → ℕ) → List ℕ → ℕ → List ℕ
place_sleeper2 priority wake [] t = t ∷ []
place_sleeper2 priority wake (x ∷ xs) t =
    let rest = place_sleeper2 priority wake xs t in
    if wake x == wake t
    then place_by_priority priority (x ∷ xs) t
    else (if leb (wake t) (wake x) then t ∷ x ∷ xs else x ∷ rest)

-- `cur_thread->wake_up_tick = total_ticks`.
abbrev pub set_wake : Kernel → ℕ → Kernel
set_wake k n = record k {
  thread = update k.thread k.cur (record (k.thread k.cur) { wake_up_tick = k.ticks + n });
}

-- Lab1's `timer_sleep (n)`; an `n` of 0 stands for every `ticks <= 0`.
abbrev pub timer_sleep_lab1 : Kernel → ℕ → Option Kernel
timer_sleep_lab1 k n =
    if n == 0
    then some k
    else (let k' = set_wake k n in
        thread_block
          (record k' { timer_list = place_sleeper (wake_up_tick_of k') k'.timer_list k'.cur }))

-- Lab2's.
abbrev pub timer_sleep : Kernel → ℕ → Option Kernel
timer_sleep k n =
    if n == 0
    then some k
    else (let k' = set_wake k n in
        thread_block (record k' {
          timer_list = place_sleeper2 (priority_of k') (wake_up_tick_of k') k'.timer_list k'.cur;
        }))

-- The loop of `timer_interrupt` over the sleepers.
abbrev pub wake_due : Kernel → List ℕ → Option Kernel
wake_due k [] = some (record k { timer_list = [] })
wake_due k (t ∷ ts) =
    if ltb k.ticks (wake_up_tick_of k t)
    then some (record k { timer_list = t ∷ ts })
    else elim (thread_unblock k t) [ none ↦ none | some k' ↦ wake_due k' ts ]

abbrev pub timer_interrupt : Kernel → Option Kernel
timer_interrupt k = elim (thread_tick (record k { ticks = k.ticks + 1 })) [
  | none ↦ none
  | some k' ↦ wake_due k' k'.timer_list
]

-- `intr_handler` of threads/interrupt.c, for the timer's vector.
abbrev pub intr_handler : Kernel → Option Kernel
intr_handler k =
    if k.in_external_intr
    then none
    else elim (timer_interrupt (record k { in_external_intr = true; yield_on_return = false })) [
      | none ↦ none
      | some k' ↦
          let left = record k' { in_external_intr = false } in
          if k'.yield_on_return then thread_yield left else some left
    ]
