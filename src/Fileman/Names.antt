-- ===== src/Fileman/Names.antt =====
-- File names, compared as texts.
use Prim.Native.String.{String}
use text.Mathlib.Text.{◌==◌}
use text.Mathlib.TextPositions.{eq_refl}
use cse130_git.Prelude.{◌≡◌, Bool, true}

abbrev pub same_name : String → String → Bool
same_name a b = a == b

pub same_name_refl : (a : String) → same_name a a ≡ true
same_name_refl a = eq_refl a
