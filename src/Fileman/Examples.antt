-- ===== src/Fileman/Examples.antt =====
-- A directory tree and files, with what fileman.c makes of them.
use cse130_git.Prelude.{
  ℕ, ◌+◌, ◌≡◌, refl, Option, none, some, List, [], ◌∷◌, Bool, true, false, ◌&&◌, ◌==◌,
  if◌then◌else◌, arith,
}
use cse130_git.Fileman.Bytes.{store, fgetc}
use cse130_git.Fileman.Files.{
  Files, put, fileman_read, fileman_write, fileman_copy, fill, skip, copy_loop,
}
use cse130_git.Fileman.Read.{fileman_copy_lem}
use cse130_git.Fileman.Write.{write-read}
use cse130_git.Fileman.Tree.{Name}
use cse130_git.Fileman.Tree.Hierarchy.{Node, file, dir, no_more, entry, listing, listing_all}

abbrev same_path : Name → Name → Bool
same_path [] [] = true
same_path (a ∷ xs) (b ∷ ys) = a == b && same_path xs ys
same_path _ _ = false

abbrev none_at_all : Files
none_at_all other = none

abbrev one_file : Files
one_file = put none_at_all "a" (5 ∷ 6 ∷ 255 ∷ 7 ∷ [])

abbrev clean_file : Files
clean_file = put none_at_all "a" (5 ∷ 6 ∷ [])

abbrev blank : ℕ → ℕ
blank i = 0

abbrev counting : ℕ → ℕ
counting i = i + 1

read_one : (fileman_read one_file "a" 1 blank 3 9).0 ≡ 1
unfolding fileman_read fill skip fgetc
read_one = refl

copy_one : (fileman_copy one_file "a" "b").0 ≡ 3
unfolding fileman_copy copy_loop fgetc
copy_one = refl

fileman_copy_lem_example : fileman_copy one_file "a" "b" ≡ (3, put one_file "b" (5 ∷ 6 ∷ []))
fileman_copy_lem_example = fileman_copy_lem one_file "a" "b"

write-read_example :
    let (w, fs') = fileman_write none_at_all "a" 4 counting 1 2 in
    w ≡ 2 × fileman_read fs' "a" 4 blank 0 2 ≡ (2, store blank 0 (2 ∷ 3 ∷ []))
write-read_example =
    write-read none_at_all "a" 4 counting 1 2 blank 0 refl (omega arith)
      (omega arith, (omega arith, tt))

-- d holds a file a and a directory b with a file c.
abbrev tree : Node
tree = dir (entry (97 ∷ []) file (entry (98 ∷ []) (dir (entry (99 ∷ []) file no_more)) no_more))

abbrev dot : Name
dot = 46 ∷ []

abbrev dots : Name
dots = 46 ∷ 46 ∷ []

abbrev disk : Name → Option (List Name)
disk path =
    if same_path path (100 ∷ [])
    then some (dot ∷ dots ∷ (97 ∷ []) ∷ (98 ∷ []) ∷ [])
    else (if same_path path (100 ∷ 47 ∷ 98 ∷ []) then some (dot ∷ dots ∷ (99 ∷ []) ∷ []) else none)

listing-tree :
    listing 0 (100 ∷ []) tree
    ≡ 100 ∷ 10 ∷ 32 ∷ 32 ∷ 32 ∷ 32 ∷ 97 ∷ 10 ∷ 32 ∷ 32 ∷ 32 ∷ 32 ∷ 98 ∷ 10 ∷ 32 ∷ 32 ∷ 32 ∷ 32 ∷ 32
      ∷ 32 ∷ 32 ∷ 32 ∷ 99 ∷ 10 ∷ []
unfolding listing listing_all
listing-tree = refl
