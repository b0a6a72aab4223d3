-- ===== src/Cartman/Examples.antt =====
-- Two carts at neighbouring junctions of five tracks, and a third that meets nobody.
use cse130_git.Prelude.{ℕ, ◌≡◌, ◌≢◌, inl, refl, [], ◌∷◌, true, false, arith, update}
use cse130_git.Cartman.Claim.{claim}
use cse130_git.Cartman.Threads.{
  reserve, release, cross, CartMove, Shared, System, Pc, wants, asleep, holding, crossed,
  announcing, finished, woken, begin, sleep, take, go, free, Step, arrives, moves, broadcasts,
  cartman, arrive, Reach, start, later,
}
use cse130_git.Cartman.Safety.{is_ready, is_pending, junction_exclusive, no_deadlock}

abbrev empty_memory : ℕ → CartMove
empty_memory slot = record { cart_num = 0; track_num = 0; junc_num = 0 }

abbrev s0 : System
s0 = cartman 5 empty_memory

abbrev s1 : System
s1 = arrive s0 7 0 0

abbrev s2 : System
s2 = arrive s1 8 1 1

-- Thread `i` of a state goes to `m` and `p`.
abbrev go_to : System → ℕ → Shared → Pc → System
go_to s i m p = record s { shared = m; pc = update s.pc i p }

abbrev s3 : System
s3 = go_to s2 0 s2.shared (wants 7 0 0 1)

abbrev locked : Shared
locked = record (s3.shared) {
  locks = update (update s3.shared.locks 0 1) 1 1;
  calls = reserve 7 1 ∷ reserve 7 0 ∷ s3.shared.calls;
}

abbrev s4 : System
s4 = go_to s3 0 locked (holding 7 0 0 1)

abbrev s5 : System
s5 = go_to s4 1 s4.shared (wants 8 1 1 2)

abbrev s6 : System
s6 = go_to s5 1 s5.shared (asleep 8 1 1 2)

run2 : Reach 5 empty_memory s2
run2 =
    later (later start (arrives 7 0 0 (omega arith) (omega arith) (omega arith) (inl refl)))
      (arrives 8 1 1 (omega arith) (omega arith) (omega arith) (inl refl))

run4 : Reach 5 empty_memory s4
unfolding claim
run4 = later (later run2 (moves 0 (omega arith) begin)) (moves 0 (omega arith) (take refl refl))

run6 : Reach 5 empty_memory s6
unfolding claim
run6 = later (later run4 (moves 1 (omega arith) begin)) (moves 1 (omega arith) (sleep (inl refl)))

-- The first cart alone, to the end of its thread.
abbrev reserved : Shared
reserved = record (s1.shared) {
  locks = update (update s1.shared.locks 0 1) 1 1;
  calls = reserve 7 1 ∷ reserve 7 0 ∷ [];
}

abbrev crossing : Shared
crossing = record reserved { calls = cross 7 0 0 ∷ reserved.calls }

abbrev released : Shared
released = record crossing {
  locks = update (update crossing.locks 0 0) 1 0;
  calls = release 7 1 ∷ release 7 0 ∷ crossing.calls;
}

abbrev a1 : System
a1 = go_to s1 0 s1.shared (wants 7 0 0 1)

abbrev a2 : System
a2 = go_to (go_to a1 0 reserved (holding 7 0 0 1)) 0 crossing (crossed 7 0 1)

abbrev a3 : System
a3 = go_to a2 0 released announcing

abbrev a4 : System
a4 = record a3 { pc = update (λ k. woken (a3.pc k)) 0 finished }

run_a1 : Reach 5 empty_memory a1
unfolding claim
run_a1 =
    later (later start (arrives 7 0 0 (omega arith) (omega arith) (omega arith) (inl refl)))
      (moves 0 (omega arith) begin)

run_a4 : Reach 5 empty_memory a4
run_a4 =
    later
      (later
        (later (later run_a1 (moves 0 (omega arith) (take refl refl))) (moves 0 (omega arith) go))
        (moves 0 (omega arith) free))
      (broadcasts 0 (omega arith) refl)

a4_idle : (i : ℕ) → is_pending (a4.pc i) ≡ false
a4_idle i = ground arith

junction_exclusive_example : ◌≡◌ {A = ℕ} 0 0
junction_exclusive_example = junction_exclusive (omega arith) (omega arith) run6 0 0 1 refl refl

no_deadlock_example :
    (k : ℕ) × (is_ready (s6.pc k) ≡ true) × (t : System) × Step s6 t × (t.pc k ≢ s6.pc k)
no_deadlock_example = no_deadlock (omega arith) (omega arith) run6 1 refl
