-- ===== src/KernelList/Examples.antt =====
-- A list of the elements 5 and 6, with header elements at 100 and 101.
use cse130_git.Prelude.{◌≡◌, refl, none, some, [], ◌∷◌, ltb, ◌==◌, if◌then◌else◌, arith}
use cse130_git.KernelList.Links.{Heap, KList}
use cse130_git.KernelList.Ops.{list_insert_ordered, list_reverse}
use cse130_git.KernelList.Chain.{Holds}
use cse130_git.KernelList.Lists.{IsFresh}
use cse130_git.KernelList.Walk.{list_insert_ordered_lem}
use cse130_git.KernelList.Reverse.{list_reverse_lem}

abbrev two : Heap
two = record {
  prev = λ e.
      if e == 5 then some 100 else (if e == 6 then some 5 else (if e == 101 then some 6 else none));
  next = λ e.
      if e == 100 then some 5 else (if e == 5 then some 6 else (if e == 6 then some 101 else none));
}

abbrev list56 : KList
list56 = record { head = 100; tail = 101 }

two-Holds : Holds two list56 (5 ∷ 6 ∷ [])
two-Holds = record {
  front = refl;
  back = refl;
  chain = (refl, refl, (refl, refl, (refl, refl, tt)));
  distinct = (
    (omega arith, (omega arith, (omega arith, tt))),
    ((omega arith, (omega arith, tt)), ((omega arith, tt), (tt, tt))),
  );
}

fresh7 : IsFresh list56 (5 ∷ 6 ∷ []) 7
fresh7 = (omega arith, (omega arith, (omega arith, (omega arith, tt))))

list_insert_ordered_lem_example :
    (h' : Heap) × (list_insert_ordered 3 two list56 7 ltb ≡ some h')
    × Holds h' list56 (5 ∷ 6 ∷ 7 ∷ [])
list_insert_ordered_lem_example =
    list_insert_ordered_lem two list56 ltb 7 (5 ∷ 6 ∷ []) 3 two-Holds fresh7 (omega arith)

list_reverse_lem_example :
    (h' : Heap) × (list_reverse 3 two list56 ≡ some h') × Holds h' list56 (6 ∷ 5 ∷ [])
list_reverse_lem_example = list_reverse_lem two list56 (5 ∷ 6 ∷ []) 3 two-Holds (omega arith)
