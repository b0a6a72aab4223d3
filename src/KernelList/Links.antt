-- ===== src/KernelList/Links.antt =====
-- The memory of list.c: for every `struct list_elem`, by its address, its two links.
use cse130_git.Prelude.{ℕ, Option, none, some, Bool, true, false, update}

-- A link, `none` for NULL.
abbrev pub Link : Type 0
Link = Option ℕ

-- The `prev` and `next` of the elements.
pub record Heap : Type 0 where
  pub prev : ℕ → Link
  pub next : ℕ → Link

-- `struct list`: the addresses of its two header elements.
pub record KList : Type 0 where
  pub head : ℕ
  pub tail : ℕ

abbrev pub set_prev : Heap → ℕ → Link → Heap
set_prev h e v = record h { prev = update h.prev e v }

abbrev pub set_next : Heap → ℕ → Link → Heap
set_next h e v = record h { next = update h.next e v }

abbrev pub is_null : Link → Bool
is_null none = true
is_null (some e) = false
