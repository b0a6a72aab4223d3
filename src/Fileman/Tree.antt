-- ===== src/Fileman/Tree.antt =====
-- file_rec and fileman_dir, file_rec2 and fileman_tree: what they write, over `scandir`.
pub mod Hierarchy
pub mod Dir
pub mod Box
use cse130_git.Prelude.{
  ℕ, zero, suc, ◌+◌, ◌-◌, ◌*◌, ◌≡◌, Option, none, some, List, [], ◌∷◌, ◌++◌, Bool, true, false, ltb,
  ◌==◌, if◌then◌else◌, length, update,
}

abbrev pub Name : Type 0
Name = List ℕ

abbrev pub spaces : List ℕ
spaces = 32 ∷ 32 ∷ 32 ∷ 32 ∷ []

abbrev pub newl : List ℕ
newl = 10 ∷ []

-- `TEE`, `HOR`, `VER` and `ELB` in UTF-8, and what `fileman_tree` makes of them.
abbrev pub cap : List ℕ
cap = 226 ∷ 148 ∷ 156 ∷ 226 ∷ 148 ∷ 128 ∷ 226 ∷ 148 ∷ 128 ∷ 32 ∷ []

abbrev pub end : List ℕ
end = 226 ∷ 148 ∷ 148 ∷ 226 ∷ 148 ∷ 128 ∷ 226 ∷ 148 ∷ 128 ∷ 32 ∷ []

abbrev pub spaces2 : List ℕ
spaces2 = 226 ∷ 148 ∷ 130 ∷ 32 ∷ 32 ∷ 32 ∷ []

abbrev pub indent : ℕ → List ℕ
indent zero = []
indent (suc deep) = spaces ++ indent deep

-- `thiscp`, an array of 4096 with its final zero.
abbrev pub this_path : ℕ → (prev dname : Name) → Name
this_path zero prev dname = prev ++ dname
this_path (suc deep) prev dname = prev ++ 47 ∷ dname

-- The entries from the third on.
abbrev pub from_third : List Name → List Name
from_third (a ∷ b ∷ names) = names
from_third _ = []

abbrev pub followed : List ℕ → Option (List ℕ) → Option (List ℕ)
followed out none = none
followed out (some rest) = some (out ++ rest)

-- The loop over the entries, with the call for one of them.
abbrev pub each : (Name → Option (List ℕ)) → List Name → Option (List ℕ)
each call [] = some []
each call (name ∷ names) = elim (call name) [
  | none ↦ none
  | some out ↦ followed out (each call names)
]

abbrev pub Done : Type 0
Done = ℕ → ℕ

abbrev pub bars : Done → ℕ → List ℕ
bars done zero = []
bars done (suc k) = bars done k ++ (if done k == 0 then spaces2 else spaces)

abbrev pub mark : ℕ → ℕ → List ℕ
mark zero cap_type = []
mark (suc deep) cap_type = if cap_type == 0 then cap else end

abbrev pub followed2 : List ℕ → Option (List ℕ × Done) → Option (List ℕ × Done)
followed2 out none = none
followed2 out (some (rest, done)) = some (out ++ rest, done)

-- The loop of `file_rec2`: the call takes the name, `cap_type` and `done`.
abbrev pub each2 :
    (Name → ℕ → Done → Option (List ℕ × Done)) → ℕ → Done → List Name → Option (List ℕ × Done)
each2 call deep done [] = some ([], done)
each2 call deep done (name ∷ []) = if ltb deep 1000 then call name 1 (update done deep 1) else none
each2 call deep done (name ∷ next ∷ names) =
    if ltb deep 1000
    then elim (call name 0 (update done deep 0)) [
      | none ↦ none
      | some (out, done') ↦ followed2 out (each2 call deep done' (next ∷ names))
    ]
    else none

-- The array that `scandir` makes for a path, sorted by name, taken as followed by a null pointer; none
-- where it fails.
module _ (scandir : Name → Option (List Name)) where
  -- What is written; none where `thiscp` overflows, or the fuel ends.
  unfoldable pub file_rec : ℕ → Name → ℕ → Name → Option (List ℕ)
  file_rec zero dname deep prev = none
  file_rec (suc fuel) dname deep prev =
      let thiscp = this_path deep prev dname in
      if ltb (length thiscp) 4096
      then followed (indent deep ++ dname ++ newl) (elim (scandir thiscp) [
        | none ↦ some []
        | some dir_ls ↦ each (λ name. file_rec fuel name (suc deep) thiscp) (from_third dir_ls)
      ])
      else none

  unfoldable pub fileman_dir : ℕ → Name → Option (List ℕ)
  fileman_dir fuel dname = file_rec fuel dname 0 []

  -- What is written, and the array `done` of 1000; none also where that overflows.
  unfoldable pub file_rec2 : ℕ → Name → ℕ → Name → ℕ → Done → Option (List ℕ × Done)
  file_rec2 zero dname deep prev cap_type done = none
  file_rec2 (suc fuel) dname deep prev cap_type done =
      let thiscp = this_path deep prev dname in
      if ltb (length thiscp) 4096
      then followed2 (bars done (deep - 1) ++ mark deep cap_type ++ dname ++ newl)
          (elim (scandir thiscp) [
            | none ↦ some ([], done)
            | some dir_ls ↦
                each2 (λ name cap_type done. file_rec2 fuel name (suc deep) thiscp cap_type done)
                  deep done (from_third dir_ls)
          ])
      else none

  -- `done` is as the stack leaves it.
  unfoldable pub fileman_tree : ℕ → Name → Done → Option (List ℕ)
  fileman_tree fuel dname done = elim (file_rec2 fuel dname 0 [] 0 done) [
    | none ↦ none
    | some (out, done') ↦ some out
  ]
