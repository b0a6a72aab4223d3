-- ===== src/Fileman/Tree/Hierarchy.antt =====
-- Directory trees, how the machine shows them to `scandir`, and how they are to be printed.
use Prim.Native.Nat.{max}
use cse130_git.Prelude.{ℕ, suc, ◌≡◌, ◌<◌, Option, none, some, List, [], ◌∷◌, ◌++◌, length}
use cse130_git.Fileman.Tree.{Name, spaces, newl, cap, end, spaces2, indent}

-- A file, or a directory with its entries in order.
mutual
  pub data Node : Type 0 where
    file : Node
    dir : Entries → Node

  pub data Entries : Type 0 where
    no_more : Entries
    entry : Name → Node → Entries → Entries

abbrev pub names : Entries → List Name
names no_more = []
names (entry name node es) = name ∷ names es

unfoldable mutual
  pub height : Node → ℕ
  height file = 0
  height (dir es) = suc (height_all es)

  pub height_all : Entries → ℕ
  height_all no_more = 0
  height_all (entry name node es) = max (height node) (height_all es)

abbrev pub BehindTwo : Option (List Name) → List Name → Type 0
BehindTwo dir_ls rest = (two : Name × Name) × dir_ls ≡ some (two.0 ∷ two.1 ∷ rest)

-- `scandir` gives the entries of every directory of the tree behind two others, fails at its files, and
-- all the paths fit into an array of 4096.
module _ (scandir : Name → Option (List Name)) where
  unfoldable mutual
    pub Shown : Name → Node → Type 0
    Shown path file = length path < 4096 × scandir path ≡ none
    Shown path (dir es) =
        length path < 4096 × (BehindTwo (scandir path) (names es) × ShownAll path es)

    pub ShownAll : Name → Entries → Type 0
    ShownAll path no_more = Unit
    ShownAll path (entry name node es) = Shown (path ++ 47 ∷ name) node × ShownAll path es

-- By depth: four spaces for each level.
unfoldable mutual
  pub listing : ℕ → Name → Node → List ℕ
  listing deep name file = indent deep ++ name ++ newl
  listing deep name (dir es) = (indent deep ++ name ++ newl) ++ listing_all (suc deep) es

  pub listing_all : ℕ → Entries → List ℕ
  listing_all deep no_more = []
  listing_all deep (entry name node es) = listing deep name node ++ listing_all deep es

abbrev pub elbow : Entries → List ℕ
elbow no_more = end
elbow (entry name node es) = cap

abbrev pub bar : Entries → List ℕ
bar no_more = spaces
bar (entry name node es) = spaces2

-- As a drawing: below every entry but the last a bar is drawn down to the next one.
unfoldable mutual
  pub drawing : List ℕ → Node → List ℕ
  drawing left file = []
  drawing left (dir es) = drawing_all left es

  pub drawing_all : List ℕ → Entries → List ℕ
  drawing_all left no_more = []
  drawing_all left (entry name node es) =
      (left ++ elbow es ++ name ++ newl) ++ drawing (left ++ bar es) node ++ drawing_all left es
