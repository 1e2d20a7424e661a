-- ===== src/Signals/Tests.antt =====
-- A run of signal_timer_example.c: SIGVTALRM interrupts the handler of SIGALRM between its flag and
-- its check.
use c_playground.Prelude.{◌≡◌, refl, Bool, true, [], ◌∷◌}
use c_playground.Signals.{
  Signal, sigalrm, sigvtalrm, sigprof, Itimerval, Timers, timer, received, Place, stopping, setting,
  checking_alrm, checking_vtalrm, checking_prof, finishing, Process, stop, deliver, run, test, Step,
  Reach, start, later, Frame,
}
use c_playground.Signals.Safety.{loop_left}

abbrev accepts : Signal → Itimerval → Bool
accepts s new = true

abbrev timers : Timers
timers = record { real = stop; virtual = stop; prof = stop }

record Run : Type 0 where
  last : Process
  reach : Reach accepts timers last

next : (r : Run) {q : Process} → Step accepts r.last q → Run
next r step = record { last = _; reach = later r.reach step }

-- The whole handler of the signal on top, with nothing in between.
abbrev frame : Signal → Place → Frame
frame s p = record { signal = s; place = p }

two_handlers : Run
unfolding next
two_handlers =
    next
      (next
        (next
          (next
            (next (next (record { last = _; reach = start }) (deliver sigalrm))
              (run sigalrm stopping [] refl))
            (run sigalrm setting [] refl))
          (deliver sigvtalrm))
        (run sigvtalrm stopping (frame sigalrm checking_alrm ∷ []) refl))
      (run sigvtalrm setting (frame sigalrm checking_alrm ∷ []) refl)

-- Both handlers see that SIGPROF is missing.
both_return : Run
unfolding two_handlers
both_return =
    next
      (next
        (next
          (next
            (next
              (next two_handlers
                (run sigvtalrm checking_alrm (frame sigalrm checking_alrm ∷ []) refl))
              (run sigvtalrm checking_vtalrm (frame sigalrm checking_alrm ∷ []) refl))
            (run sigvtalrm checking_prof (frame sigalrm checking_alrm ∷ []) refl))
          (run sigalrm checking_alrm [] refl))
        (run sigalrm checking_vtalrm [] refl))
      (run sigalrm checking_prof [] refl)

third_returns : Run
unfolding both_return
third_returns =
    next
      (next
        (next
          (next
            (next (next (next both_return (deliver sigprof)) (run sigprof stopping [] refl))
              (run sigprof setting [] refl))
            (run sigprof checking_alrm [] refl))
          (run sigprof checking_vtalrm [] refl))
        (run sigprof checking_prof [] refl))
      (run sigprof finishing [] refl)

at_end : Run
unfolding third_returns
at_end = next third_returns (test refl refl)

loop_left_example :
    (received sigalrm at_end.last.flags ≡ true) × (timer sigalrm at_end.last.timers ≡ stop)
unfolding at_end
loop_left_example = loop_left (λ s. refl) at_end.reach refl sigalrm
