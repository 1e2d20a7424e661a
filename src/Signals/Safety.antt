-- ===== src/Signals/Safety.antt =====
-- When the loop of signal_timer_example.c ends.
use c_playground.Prelude.{◌≡◌, sym, subst, ◌∙◌, Bool, true, [], ◌⊎◌, inl, inr, Bool-cases}
use c_playground.Signals.{
  Signal, sigalrm, sigvtalrm, sigprof, Itimerval, Timers, timer, Flags, received, all_received,
  left_loop, Process, stop, Reach,
}
use c_playground.Signals.Invariant.{Stoppable, Reach-Inv}
use c_playground.Signals.Known.{Pending, all_three}

every_received : (f : Flags) (s : Signal) → all_received f ≡ true → received s f ≡ true
every_received f sigalrm e = (all_three f e).0
every_received f sigvtalrm e = (all_three f e).1
every_received f sigprof e = (all_three f e).2

module _ {accepts : Signal → Itimerval → Bool} {t : Timers} {p : Process}
    (stoppable : Stoppable accepts) (r : Reach accepts t p) where
  -- If `setitimer` accepts to stop a timer: when `main` has left its loop through the test, each of
  -- the three signals has been handled, and each of the three timers is stopped, however the handlers
  -- interrupted each other.
  pub loop_left :
      p.main ≡ left_loop → (s : Signal) → (received s p.flags ≡ true) × (timer s p.timers ≡ stop)
  loop_left e s =
      let inv = Reach-Inv accepts stoppable r in
      let got = every_received p.flags s (inv.done (inv.left e)) in (got, inv.stopped s got)

  -- If `setitimer` accepts to stop a timer: whenever no handler runs, `loop_is_done` is set exactly
  -- when all three signals have been received, so that the next test of the loop sees it.
  pub done_when_received : p.frames ≡ [] → p.flags.loop_is_done ≡ all_received p.flags
  done_when_received e =
      let inv = Reach-Inv accepts stoppable r in
      elim (Bool-cases (all_received p.flags)) [
        | inl all ↦
            elim (subst (λ xs. (p.flags.loop_is_done ≡ true) ⊎ Pending xs) e (inv.pending all)) [
              | inl d ↦ d ∙ sym all
              | inr w ↦ absurd w
            ]
        | inr not_all ↦ elim (Bool-cases p.flags.loop_is_done) [
          | inl d ↦ absurd (let all = inv.done d in cc)
          | inr off ↦ off ∙ sym not_all
        ]
      ]
