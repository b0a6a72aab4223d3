-- ===== src/KernelList/Ops.antt =====
-- The functions of list.c, in its order. An ASSERT that fails, and a NULL that is read, is `none`.
use cse130_git.Prelude.{
  ℕ, zero, suc, ◌+◌, Option, none, some, Bool, false, not, ◌&&◌, ◌||◌, ◌==◌, if◌then◌else◌, update,
}
use cse130_git.KernelList.Links.{Link, Heap, KList, set_prev, set_next, is_null}

abbrev pub is_head : Heap → ℕ → Bool
is_head h e = is_null (h.prev e) && not (is_null (h.next e))

abbrev pub is_interior : Heap → ℕ → Bool
is_interior h e = not (is_null (h.prev e)) && not (is_null (h.next e))

abbrev pub is_tail : Heap → ℕ → Bool
is_tail h e = not (is_null (h.prev e)) && is_null (h.next e)

abbrev pub list_init : Heap → KList → Heap
list_init h l =
    let h1 = set_prev h l.head none in
    let h2 = set_next h1 l.head (some l.tail) in
    let h3 = set_prev h2 l.tail (some l.head) in set_next h3 l.tail none

abbrev pub list_begin : Heap → KList → Link
list_begin h l = h.next l.head

abbrev pub list_next : Heap → ℕ → Option ℕ
list_next h e = if is_head h e || is_interior h e then h.next e else none

abbrev pub list_end : KList → ℕ
list_end l = l.tail

abbrev pub list_rbegin : Heap → KList → Link
list_rbegin h l = h.prev l.tail

abbrev pub list_prev : Heap → ℕ → Option ℕ
list_prev h e = if is_interior h e || is_tail h e then h.prev e else none

abbrev pub list_insert : Heap → (before elem : ℕ) → Option Heap
list_insert h before elem =
    if is_interior h before || is_tail h before
    then (let h1 = set_prev h elem (h.prev before) in
        let h2 = set_next h1 elem (some before) in
        elim (h2.prev before) [
          | none ↦ none
          | some p ↦ some (set_prev (set_next h2 p (some elem)) before (some elem))
        ])
    else none

abbrev pub list_push_front : Heap → KList → ℕ → Option Heap
list_push_front h l elem = elim (list_begin h l) [ none ↦ none | some b ↦ list_insert h b elem ]

abbrev pub list_push_back : Heap → KList → ℕ → Option Heap
list_push_back h l elem = list_insert h (list_end l) elem

-- What follows the element, and the heap without it in its list.
abbrev pub list_remove : Heap → ℕ → Option (Link × Heap)
list_remove h elem =
    if is_interior h elem
    then elim (h.prev elem) [
      | none ↦ none
      | some p ↦
          let h1 = set_next h p (h.next elem) in
          elim (h1.next elem) [
            | none ↦ none
            | some n ↦ let h2 = set_prev h1 n (h1.prev elem) in some (h2.next elem, h2)
          ]
    ]
    else none

abbrev pub same_link : Link → ℕ → Bool
same_link none e = false
same_link (some d) e = d == e

abbrev pub list_empty : Heap → KList → Bool
list_empty h l = same_link (list_begin h l) (list_end l)

abbrev pub list_front : Heap → KList → Option ℕ
list_front h l = if list_empty h l then none else h.next l.head

abbrev pub list_back : Heap → KList → Option ℕ
list_back h l = if list_empty h l then none else h.prev l.tail

abbrev pub list_pop_front : Heap → KList → Option (ℕ × Heap)
list_pop_front h l = elim (list_front h l) [
  | none ↦ none
  | some front ↦ elim (list_remove h front) [ none ↦ none | some (n, h') ↦ some (front, h') ]
]

abbrev pub list_pop_back : Heap → KList → Option (ℕ × Heap)
list_pop_back h l = elim (list_back h l) [
  | none ↦ none
  | some back ↦ elim (list_remove h back) [ none ↦ none | some (n, h') ↦ some (back, h') ]
]

-- The loop of `list_size`, with fuel.
abbrev pub count_from : ℕ → Heap → KList → Link → ℕ → Option ℕ
count_from zero h l e cnt = none
count_from (suc fuel) h l none cnt = none
count_from (suc fuel) h l (some e) cnt =
    let rest = count_from fuel h l (list_next h e) (cnt + 1) in
    if e == list_end l then some cnt else rest

abbrev pub list_size : ℕ → Heap → KList → Option ℕ
list_size fuel h l = count_from fuel h l (list_begin h l) 0

-- `list_less_func`, with what it reads of the elements and of `aux`.
abbrev pub LessFunc : Type 0
LessFunc = ℕ → ℕ → Bool

-- The loop of `list_insert_ordered`, with fuel: the element to insert before.
abbrev pub find_place : ℕ → Heap → KList → LessFunc → ℕ → Link → Option ℕ
find_place zero h l less elem e = none
find_place (suc fuel) h l less elem none = none
find_place (suc fuel) h l less elem (some e) =
    let rest = find_place fuel h l less elem (list_next h e) in
    if e == list_end l then some e else (if less elem e then some e else rest)

abbrev pub list_insert_ordered : ℕ → Heap → KList → ℕ → LessFunc → Option Heap
list_insert_ordered fuel h l elem less = elim (find_place fuel h l less elem (list_begin h l)) [
  | none ↦ none
  | some e ↦ list_insert h e elem
]

-- The loop of `list_max`, with fuel: `e` goes on from the element after the first.
abbrev pub max_from : ℕ → Heap → KList → LessFunc → ℕ → Link → Option ℕ
max_from zero h l less max e = none
max_from (suc fuel) h l less max none = none
max_from (suc fuel) h l less max (some e) =
    let rest = max_from fuel h l less (if less max e then e else max) (list_next h e) in
    if e == list_end l then some max else rest

abbrev pub list_max : ℕ → Heap → KList → LessFunc → Option ℕ
list_max fuel h l less = elim (list_begin h l) [
  | none ↦ none
  | some max ↦ if max == list_end l then some max else max_from fuel h l less max (list_next h max)
]

-- `list_min` in the same way.
abbrev pub min_from : ℕ → Heap → KList → LessFunc → ℕ → Link → Option ℕ
min_from zero h l less min e = none
min_from (suc fuel) h l less min none = none
min_from (suc fuel) h l less min (some e) =
    let rest = min_from fuel h l less (if less e min then e else min) (list_next h e) in
    if e == list_end l then some min else rest

abbrev pub list_min : ℕ → Heap → KList → LessFunc → Option ℕ
list_min fuel h l less = elim (list_begin h l) [
  | none ↦ none
  | some min ↦ if min == list_end l then some min else min_from fuel h l less min (list_next h min)
]

-- `swap (&e->prev, &e->next)`.
abbrev pub turn : Heap → ℕ → Heap
turn h e = record { prev = update h.prev e (h.next e); next = update h.next e (h.prev e) }

-- The loop of `list_reverse`, with fuel: `e->prev` is by then what came after the element.
abbrev pub turn_from : ℕ → Heap → KList → Link → Option Heap
turn_from zero h l e = none
turn_from (suc fuel) h l none = none
turn_from (suc fuel) h l (some e) =
    let rest = turn_from fuel (turn h e) l ((turn h e).prev e) in
    if e == list_end l then some h else rest

-- The two swaps behind the loop.
abbrev pub swap_ends : Heap → KList → Option Heap
swap_ends h l =
    let h1 = set_prev (set_next h l.head (h.prev l.tail)) l.tail (h.next l.head) in
    elim (h1.next l.head) [
      | none ↦ none
      | some first ↦ elim (h1.prev l.tail) [
        | none ↦ none
        | some last ↦ some (set_next (set_prev h1 first (h1.next last)) last (h1.prev first))
      ]
    ]

abbrev pub list_reverse : ℕ → Heap → KList → Option Heap
list_reverse fuel h l =
    if list_empty h l
    then some h
    else elim (turn_from fuel h l (list_begin h l)) [ none ↦ none | some h' ↦ swap_ends h' l ]
