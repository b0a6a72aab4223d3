-- ===== src/Fileman/Tree/Box.antt =====
-- What `file_rec2` and `fileman_tree` write.
use mathlib.Core.List.{append-nil}
use cse130_git.Prelude.{
  ℕ, zero, suc, ◌+◌, ◌-◌, ◌≡◌, ◌<◌, ◌≤◌, refl, sym, ◌∙◌, Option, some, List, [], ◌∷◌, ◌++◌, true,
  false, ltb, ◌==◌, length, arith, update,
}
use cse130_git.Fileman.Tree.{
  Name, newl, cap, end, spaces, spaces2, mark, this_path, each2, file_rec2, Done, bars,
}
use cse130_git.Fileman.Tree.Hierarchy.{
  Node, file, dir, Entries, no_more, entry, names, height, height_all, Shown, ShownAll, drawing,
  drawing_all,
}

-- The array is as before below a depth.
abbrev KeptBelow : ℕ → Done → Done → Type 0
KeptBelow deep done done' = (i : ℕ) → i < deep → done' i ≡ done i

-- What a call writes, and that it leaves the array below the depth as it is.
abbrev Writes : ℕ → Done → List ℕ → Option (List ℕ × Done) → Type 0
Writes deep done out r = (done' : Done) × (r ≡ some (out, done') × KeptBelow deep done done')

bars_kept :
    (deep : ℕ) (done done' : Done) → KeptBelow deep done done' → bars done' deep ≡ bars done deep
bars_kept zero done done' k = refl
bars_kept (suc n) done done' k =
    rw (bars_kept n done done' (λ i h. k i (omega arith)), k n (omega arith)) refl

update_kept : (deep : ℕ) (done : Done) (x : ℕ) → KeptBelow deep done (update done deep x)
update_kept deep done x i h = let e : deep == i ≡ false = ground (arith, h) in rw (e) refl

kept_trans :
    (deep : ℕ) (a b c : Done) → KeptBelow deep a b → KeptBelow (suc deep) b c → KeptBelow deep a c
kept_trans deep a b c h k i l = k i (omega arith) ∙ h i l

suc_sub_one : (n : ℕ) → suc n - 1 ≡ n
suc_sub_one n = omega arith

same : (n : ℕ) → n == n ≡ true
same n = ground arith

each2_last :
    (call : Name → ℕ → Done → Option (List ℕ × Done)) (deep : ℕ) (done : Done) (name : Name)
    (out : List ℕ)
    → deep < 1000
    → Writes (suc deep) (update done deep 1) out (call name 1 (update done deep 1))
    → Writes deep done out (each2 call deep done (name ∷ []))
each2_last call deep done name out l (done', (e, k)) =
    let room : ltb deep 1000 ≡ true = ground (arith, l) in
    rw (each2, room, e)
      (done', (refl, kept_trans deep done (update done deep 1) done' (update_kept deep done 1) k))

each2_more :
    (call : Name → ℕ → Done → Option (List ℕ × Done)) (deep : ℕ) (done : Done) (name next : Name)
    (rest : List Name) (out outs : List ℕ)
    → deep < 1000
    → Writes (suc deep) (update done deep 0) out (call name 0 (update done deep 0))
    → ((done' : Done)
        → KeptBelow deep done done'
        → Writes deep done' outs (each2 call deep done' (next ∷ rest)))
    → Writes deep done (out ++ outs) (each2 call deep done (name ∷ next ∷ rest))
each2_more call deep done name next rest out outs l (done', (e, k)) more =
    let room : ltb deep 1000 ≡ true = ground (arith, l) in
    let k' = kept_trans deep done (update done deep 0) done' (update_kept deep done 0) k in
    let (done'', (f, k'')) = more done' k' in
    rw (each2, room, e) (rw (f) (done'', (refl, λ i h. k'' i h ∙ k' i h)))

module _ (scandir : Name → Option (List Name)) where
  mutual
    unfolding file_rec2 height height_all Shown ShownAll drawing drawing_all

    file_rec2_lem :
        (node : Node) (fuel : ℕ) (dname : Name) (deep : ℕ) (prev : Name) (cap_type : ℕ)
        (done : Done)
        → height node < fuel
        → deep + height node ≤ 1000
        → Shown scandir (this_path deep prev dname) node
        → Writes deep done
            ((bars done (deep - 1) ++ mark deep cap_type ++ dname ++ newl)
              ++ drawing (bars done deep) node)
            (file_rec2 scandir fuel dname deep prev cap_type done)
    file_rec2_lem node zero dname deep prev cap_type done h l s = absurd (omega arith)
    file_rec2_lem file (suc fuel) dname deep prev cap_type done h l s =
        let fits : ltb (length (this_path deep prev dname)) 4096 ≡ true = ground (arith, s.0) in
        rw (file_rec2, fits, s.1) (done, (refl, λ i j. refl))
    file_rec2_lem (dir es) (suc fuel) dname deep prev cap_type done h l s =
        let path = this_path deep prev dname in
        let fits : ltb (length path) 4096 ≡ true = ground (arith, s.0) in
        let (done', (e, k)) = each2_lem es fuel path deep done (omega arith) (omega arith) s.1.1 in
        rw (file_rec2, fits, s.1.0.1) (rw (e) (done', (refl, k)))

    each2_lem :
        (es : Entries) (fuel : ℕ) (path : Name) (deep : ℕ) (done : Done)
        → height_all es < fuel
        → deep + suc (height_all es) ≤ 1000
        → ShownAll scandir path es
        → Writes deep done (drawing_all (bars done deep) es) (
            each2
              (λ name cap_type done. file_rec2 scandir fuel name (suc deep) path cap_type done)
              deep
              done
              (names es))
    each2_lem no_more fuel path deep done h l s = (done, (refl, λ i j. refl))
    each2_lem (entry name node no_more) fuel path deep done h l s =
        rw
          (append-nil
            (bars done deep ++ end ++ name ++ newl ++ drawing (bars done deep ++ spaces) node))
          (each2_last
            (λ name cap_type done. file_rec2 scandir fuel name (suc deep) path cap_type done) deep
            done name
            ((bars done deep ++ end ++ name ++ newl) ++ drawing (bars done deep ++ spaces) node)
            (omega arith)
            (rw
              (
                suc_sub_one deep,
                bars_kept deep done (update done deep 1) (update_kept deep done 1),
                same deep,
              )
              at
              (file_rec2_lem node fuel name (suc deep) path 1 (update done deep 1) (omega arith)
                (omega arith) s.0)))
    each2_lem (entry name node (entry next node' es)) fuel path deep done h l s =
        each2_more (λ name cap_type done. file_rec2 scandir fuel name (suc deep) path cap_type done)
          deep done name next (names es)
          ((bars done deep ++ cap ++ name ++ newl) ++ drawing (bars done deep ++ spaces2) node)
          (drawing_all (bars done deep) (entry next node' es)) (omega arith)
          (rw
            (
              suc_sub_one deep,
              bars_kept deep done (update done deep 0) (update_kept deep done 0),
              same deep,
            )
            at
            (file_rec2_lem node fuel name (suc deep) path 0 (update done deep 0) (omega arith)
              (omega arith) s.0))
          (λ done' k.
            rw (sym (bars_kept deep done done' k)) (
              each2_lem (entry next node' es) fuel path deep done' (omega arith) (omega arith) s.1))
