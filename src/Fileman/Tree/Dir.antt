-- ===== src/Fileman/Tree/Dir.antt =====
-- What `file_rec` and `fileman_dir` write.
use mathlib.Core.List.{append-nil}
use cse130_git.Prelude.{
  ℕ, zero, suc, ◌≡◌, ◌<◌, refl, Option, some, List, ◌∷◌, ◌++◌, true, ltb, length, arith,
}
use cse130_git.Fileman.Tree.{Name, newl, indent, this_path, each, file_rec}
use cse130_git.Fileman.Tree.Hierarchy.{
  Node, file, dir, Entries, no_more, entry, names, height, height_all, Shown, ShownAll, listing,
  listing_all,
}

each-cons :
    (call : Name → Option (List ℕ)) (name : Name) (rest : List Name) (out outs : List ℕ)
    → call name ≡ some out
    → each call rest ≡ some outs
    → each call (name ∷ rest) ≡ some (out ++ outs)
each-cons call name rest out outs e f = rw (each, e) (rw (each, f) refl)

module _ (scandir : Name → Option (List Name)) where
  mutual
    unfolding file_rec height height_all Shown ShownAll listing listing_all

    file_rec_lem :
        (node : Node) (fuel : ℕ) (dname : Name) (deep : ℕ) (prev : Name)
        → height node < fuel
        → Shown scandir (this_path deep prev dname) node
        → file_rec scandir fuel dname deep prev ≡ some (listing deep dname node)
    file_rec_lem node zero dname deep prev h s = absurd (omega arith)
    file_rec_lem file (suc fuel) dname deep prev h s =
        let fits : ltb (length (this_path deep prev dname)) 4096 ≡ true = ground (arith, s.0) in
        rw (file_rec, fits, s.1, append-nil (indent deep ++ dname ++ newl)) refl
    file_rec_lem (dir es) (suc fuel) dname deep prev h s =
        let fits : ltb (length (this_path deep prev dname)) 4096 ≡ true = ground (arith, s.0) in
        rw
          (
            file_rec,
            fits,
            s.1.0.1,
            each_lem es fuel (this_path deep prev dname) deep (omega arith) s.1.1,
          )
          refl

    each_lem :
        (es : Entries) (fuel : ℕ) (path : Name) (deep : ℕ)
        → height_all es < fuel
        → ShownAll scandir path es
        → each (λ name. file_rec scandir fuel name (suc deep) path) (names es)
          ≡ some (listing_all (suc deep) es)
    each_lem no_more fuel path deep h s = refl
    each_lem (entry name node es) fuel path deep h s =
        each-cons (λ name. file_rec scandir fuel name (suc deep) path) name (names es)
          (listing (suc deep) name node) (listing_all (suc deep) es)
          (file_rec_lem node fuel name (suc deep) path (omega arith) s.0)
          (each_lem es fuel path deep (omega arith) s.1)
