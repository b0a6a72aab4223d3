-- ===== src/UserProgram/Execute.antt =====
-- process.c: process_execute and start_process.
use cse130_git.Prelude.{
  ℕ, zero, suc, ◌+◌, ◌-◌, ◌*◌, ◌%◌, ◌^◌, ◌≡◌, ◌≤◌, ◌<◌, Option, none, some, List, [], ◌∷◌, ◌++◌,
  Bool, true, ltb, ◌==◌, if◌then◌else◌, length, length-append, take, take-all, take-append, arith,
  refl,
}
use cse130_git.UserProgram.Stack.{Stack}
use cse130_git.UserProgram.Push.{push_command}
use cse130_git.UserProgram.Push.Frame.{frame}
use cse130_git.UserProgram.Push.Lines.{
  Next, spaced, written, words_of, Plain, PlainAll, push_command-written,
}

abbrev pgsize : ℕ
pgsize = 4096

-- `strlcpy` into a page.
abbrev copied : List ℕ → List ℕ
copied cmdline = take (pgsize - 1) cmdline

-- How far `x` goes: to the first space, or the end.
abbrev name_length : List ℕ → ℕ
name_length [] = 0
name_length (c ∷ cs) = let n = name_length cs in if c == 32 then 0 else suc n

-- What the new thread comes to: it exits, as the file does not load, it faults while it writes the
-- stack, or it runs with a stack.
pub data Start : Type 0 where
  not_loaded : Start
  stack_fault : Start
  runs : Stack → Start

-- The file by its name gives the stack pointer; the page is what the stack page holds.
abbrev start_process : (List ℕ → Option ℕ) → (ℕ → ℕ) → (name line : List ℕ) → Start
start_process elf_load page name line = elim (elf_load name) [
  | none ↦ not_loaded
  | some esp ↦ elim (push_command page line esp) [ none ↦ stack_fault | some s ↦ runs s ]
]

-- What becomes of the caller: TID_ERROR, a store through a null pointer or behind a page, a wait
-- without end, or the thread's tid, when the thread has raised the semaphore.
pub data Result : Type 0 where
  tid_error : Result
  bad_store : Result
  waits : Result
  started : (tid : ℕ) → (name : List ℕ) → Start → Result

abbrev after_start : ℕ → List ℕ → Start → Result
after_start tid name stack_fault = waits
after_start tid name end = started tid name end

-- The three pages, as `palloc_get_page` finds them, and what `thread_create` returns.
pub record Found : Type 0 where
  pub cmdline_copy : Bool
  pub cmdline2 : Bool
  pub cmd_no_args : Bool
  pub tid : Option ℕ

unfoldable pub process_execute : Found → (List ℕ → Option ℕ) → (ℕ → ℕ) → List ℕ → Result
process_execute found elf_load page cmdline =
    if found.cmdline_copy
    then (if found.cmdline2
        then (let x = name_length cmdline in
            if found.cmd_no_args
            then (if ltb x pgsize
                then elim found.tid [
                  | none ↦ waits
                  | some tid ↦
                      let name = take x cmdline in
                      after_start tid name (start_process elf_load page name (copied cmdline))
                ]
                else bad_store)
            else bad_store)
        else tid_error)
    else tid_error

name_length-spaced : (k : ℕ) (cs : List ℕ) → name_length (spaced k cs) ≡ 0
name_length-spaced zero cs = refl
name_length-spaced (suc k) cs = refl

name_length-append :
    (w : List ℕ) (ns : List Next) → Plain w → name_length (w ++ written ns) ≡ length w
name_length-append [] [] h = refl
name_length-append [] (n ∷ ns) h = name_length-spaced n.more (n.first ∷ n.others ++ written ns)
name_length-append (c ∷ w) ns h = ground (arith, h.0, name_length-append w ns h.1)

abbrev pub all_found : ℕ → Found
all_found tid = record { cmdline_copy = true; cmdline2 = true; cmd_no_args = true; tid = some tid }

-- Where the pages and the thread are found, and the file of the first word loads, `process_execute` of a
-- line written from fewer than 256 words, shorter than a page, starts a thread of the name of the first
-- word, which runs with the frame of the words on its stack, a page of zeros with room for it.
pub process_execute_lem :
    (tid : ℕ) (elf_load : List ℕ → Option ℕ) (page : ℕ → ℕ) (c : ℕ) (w : List ℕ) (ns : List Next)
    (esp : ℕ)
    → ((a : ℕ) → page a ≡ 0)
    → Plain (c ∷ w)
    → PlainAll ns
    → 1 + length ns < 256
    → length (c ∷ w ++ written ns) < 4096
    → length (c ∷ w ++ written ns) + 4 * (1 + length ns) + 24 ≤ esp
    → esp < 2 ^ 32
    → elf_load (c ∷ w) ≡ some esp
    → process_execute (all_found tid) elf_load page (c ∷ w ++ written ns)
      ≡ started tid (c ∷ w) (runs (frame (esp - esp % 4) ((c ∷ w) ∷ words_of ns)))
unfolding process_execute
process_execute_lem tid elf_load page c w ns esp z plain plains few short room low loads =
    let line = c ∷ w ++ written ns in
    let x : name_length line ≡ suc (length w) = name_length-append (c ∷ w) ns plain in
    let total : length line ≡ suc (length w) + length (written ns) =
      length-append (c ∷ w) (written ns) in
    let fits : ltb (suc (length w)) 4096 ≡ true = ground (arith, short, total) in
    let name : take (suc (length w)) line ≡ c ∷ w = take-append (c ∷ w) (written ns) in
    let whole : copied line ≡ line = take-all (pgsize - 1) line (omega (arith, short)) in
    let run = push_command-written page c w ns esp z plain plains few room low in
    rw (process_execute, x, fits)
      (rw (name, whole) (rw (after_start, start_process, loads) (rw (run) refl)))
