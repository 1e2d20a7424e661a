-- ===== src/Signals/Invariant.antt =====
-- What holds of signal_timer_example.c between two steps.
use c_playground.Prelude.{
  ◌≡◌, refl, sym, subst, ◌∙◌, Bool, true, false, List, ◌∷◌, ◌⊎◌, inl, inr, if◌then◌else◌,
}
use c_playground.Signals.{
  Signal, sigalrm, sigvtalrm, sigprof, Itimerval, Timers, timer, replace, Flags, received, receive,
  all_received, Place, stopping, setting, checking_alrm, checking_vtalrm, checking_prof, finishing,
  Frame, testing, reading, left_loop, failed, Process, stop, check, handle, Step, deliver, run,
  test, get_timers, no_flags, Reach, start, later,
}
use c_playground.Signals.Known.{
  Known, Knowing, checks, Pending, Inv, Grown, all_three, all-Grown, Knowing-Grown,
}

replace-same : (x : Signal) (new : Itimerval) (t : Timers) → timer x (replace x new t) ≡ new
replace-same sigalrm new t = refl
replace-same sigvtalrm new t = refl
replace-same sigprof new t = refl

replace-stop : (x s : Signal) (t : Timers) → timer s t ≡ stop → timer s (replace x stop t) ≡ stop
replace-stop sigalrm sigalrm t e = refl
replace-stop sigvtalrm sigvtalrm t e = refl
replace-stop sigprof sigprof t e = refl
replace-stop sigalrm sigvtalrm t e = e
replace-stop sigalrm sigprof t e = e
replace-stop sigvtalrm sigalrm t e = e
replace-stop sigvtalrm sigprof t e = e
replace-stop sigprof sigalrm t e = e
replace-stop sigprof sigvtalrm t e = e

-- A flag that is set now was set before, or it is the handler's own.
receive-stop :
    (x s : Signal) (t : Timers) (f : Flags)
    → timer x t ≡ stop
    → (received s f ≡ true → timer s t ≡ stop)
    → received s (receive x f) ≡ true
    → timer s t ≡ stop
receive-stop sigalrm sigalrm t f own before e = own
receive-stop sigvtalrm sigvtalrm t f own before e = own
receive-stop sigprof sigprof t f own before e = own
receive-stop sigalrm sigvtalrm t f own before e = before e
receive-stop sigalrm sigprof t f own before e = before e
receive-stop sigvtalrm sigalrm t f own before e = before e
receive-stop sigvtalrm sigprof t f own before e = before e
receive-stop sigprof sigalrm t f own before e = before e
receive-stop sigprof sigvtalrm t f own before e = before e

receive-done : (x : Signal) (f : Flags) → (receive x f).loop_is_done ≡ f.loop_is_done
receive-done sigalrm f = refl
receive-done sigvtalrm f = refl
receive-done sigprof f = refl

receive-Grown : (x : Signal) (t : Timers) (f : Flags) → Grown t t f (receive x f)
receive-Grown sigalrm t f = record {
  stays = λ s e. e;
  alrm = λ e. refl;
  vtalrm = λ e. e;
  prof = λ e. e;
}
receive-Grown sigvtalrm t f = record {
  stays = λ s e. e;
  alrm = λ e. e;
  vtalrm = λ e. refl;
  prof = λ e. e;
}
receive-Grown sigprof t f = record {
  stays = λ s e. e;
  alrm = λ e. e;
  vtalrm = λ e. e;
  prof = λ e. refl;
}

-- `setitimer` accepts that a timer is stopped.
abbrev pub Stoppable : (Signal → Itimerval → Bool) → Type 0
Stoppable accepts = (signal : Signal) → accepts signal stop ≡ true

stop-Grown : (x : Signal) (t : Timers) (f : Flags) → Grown t (replace x stop t) f f
stop-Grown x t f = record {
  stays = λ s e. replace-stop x s t e;
  alrm = λ e. e;
  vtalrm = λ e. e;
  prof = λ e. e;
}

module _ (p : Process) (inv : Inv p) (x : Signal) (place : Place) (rest : List Frame)
    (at : p.frames ≡ record { signal = x; place = place } ∷ rest) where
  above : Knowing p.timers p.flags (record { signal = x; place = place } ∷ rest)
  above = subst (Knowing p.timers p.flags) at inv.knowing

  waiting_check :
      all_received p.flags ≡ true
      → (p.flags.loop_is_done ≡ true) ⊎ Pending (record { signal = x; place = place } ∷ rest)
  waiting_check all = subst (λ xs. (p.flags.loop_is_done ≡ true) ⊎ Pending xs) at (inv.pending all)

  -- The handler reads a flag.
  check-Inv :
      (next : Place) (flag : Bool)
      → (flag ≡ true → Known p.timers p.flags x next)
      → (all_received p.flags ≡ true → flag ≡ true)
      → checks next ≡ true
      → Inv (record p { frames = check flag x next rest })
  check-Inv next true know seen again = record {
    knowing = (know refl, above.1);
    done = inv.done;
    pending = λ all. inr (inl again);
    stopped = inv.stopped;
    left = inv.left;
  }
  check-Inv next false know seen again = record {
    knowing = above.1;
    done = inv.done;
    pending = λ all. absurd (let no = seen all in cc);
    stopped = inv.stopped;
    left = inv.left;
  }

kept :
    (s : Signal) (t : Timers) (f : Flags)
    → (received s f ≡ true → timer s t ≡ stop)
    → received s (record f { loop_is_done = true }) ≡ true
    → timer s t ≡ stop
kept sigalrm t f before e = before e
kept sigvtalrm t f before e = before e
kept sigprof t f before e = before e

left-test : (done : Bool) → (if done then left_loop else reading) ≡ left_loop → done ≡ true
left-test true e = refl
left-test false e = absurd (cc)

left_get : (all_read : Bool) → (if all_read then testing else failed) ≡ left_loop → ⊥
left_get true e = cc
left_get false e = cc

unset : (s : Signal) → received s no_flags ≡ true → ⊥
unset sigalrm e = cc
unset sigvtalrm e = cc
unset sigprof e = cc

module _ (accepts : Signal → Itimerval → Bool) (stoppable : Stoppable accepts) where
  handle-Inv :
      (p : Process) (x : Signal) (place : Place) (rest : List Frame)
      → Inv p
      → p.frames ≡ record { signal = x; place = place } ∷ rest
      → Inv (handle accepts x place rest p)
  handle-Inv p x stopping rest inv at =
      let own = stoppable x in
      let wait = waiting_check p inv x stopping rest at in
      let pend : all_received p.flags ≡ true
          → (p.flags.loop_is_done ≡ true)
            ⊎ Pending (record { signal = x; place = setting } ∷ rest) =
        λ all. elim (wait all) [
          | inl d ↦ inl d
          | inr w ↦ elim w [ inl k ↦ absurd (cc) | inr later_one ↦ inr (inr later_one) ]
        ] in
      rw own record {
        knowing = (
          replace-same x stop p.timers,
          Knowing-Grown rest (stop-Grown x p.timers p.flags) (above p inv x stopping rest at).1,
        );
        done = inv.done;
        pending = pend;
        stopped = λ s e. replace-stop x s p.timers (inv.stopped s e);
        left = inv.left;
      }
  handle-Inv p x setting rest inv at =
      let know = above p inv x setting rest at in
      let grown = receive-Grown x p.timers p.flags in
      record {
        knowing = (tt, Knowing-Grown rest grown know.1);
        done = λ d. all-Grown p.flags _ grown (inv.done (sym (receive-done x p.flags) ∙ d));
        pending = λ all. inr (inl refl);
        stopped = λ s e. receive-stop x s p.timers p.flags know.0 (inv.stopped s) e;
        left = λ e. receive-done x p.flags ∙ inv.left e;
      }
  handle-Inv p x checking_alrm rest inv at =
      check-Inv p inv x checking_alrm rest at checking_vtalrm p.flags.receive_sigalrm (λ e. e)
        (λ all. (all_three p.flags all).0) refl
  handle-Inv p x checking_vtalrm rest inv at =
      let know = above p inv x checking_vtalrm rest at in
      check-Inv p inv x checking_vtalrm rest at checking_prof p.flags.receive_sigvtalrm
        (λ e. (know.0, e)) (λ all. (all_three p.flags all).1) refl
  handle-Inv p x checking_prof rest inv at =
      let know = above p inv x checking_prof rest at in
      let a = know.0.0 in
      let v = know.0.1 in
      check-Inv p inv x checking_prof rest at finishing p.flags.receive_sigprof
        (λ e. rw (a, v, e) refl) (λ all. (all_three p.flags all).2) refl
  handle-Inv p x finishing rest inv at =
      let know = above p inv x finishing rest at in
      let same : Grown p.timers p.timers p.flags (record p.flags { loop_is_done = true }) = record {
        stays = λ s e. e;
        alrm = λ e. e;
        vtalrm = λ e. e;
        prof = λ e. e;
      } in
      record {
        knowing = Knowing-Grown rest same know.1;
        done = λ d. know.0;
        pending = λ all. inl refl;
        stopped = λ s e. kept s p.timers p.flags (inv.stopped s) e;
        left = λ e. refl;
      }

  Step-Inv : {p q : Process} → Inv p → Step accepts p q → Inv q
  Step-Inv inv (deliver x) = record {
    knowing = (tt, inv.knowing);
    done = inv.done;
    pending = λ all. elim (inv.pending all) [ inl d ↦ inl d | inr w ↦ inr (inr w) ];
    stopped = inv.stopped;
    left = inv.left;
  }
  Step-Inv {p} inv (run x place rest at) = handle-Inv p x place rest inv at
  Step-Inv {p} inv (test empty at) = record {
    knowing = inv.knowing;
    done = inv.done;
    pending = inv.pending;
    stopped = inv.stopped;
    left = left-test p.flags.loop_is_done;
  }
  Step-Inv {p} inv (get_timers all_read empty at) = record {
    knowing = inv.knowing;
    done = inv.done;
    pending = inv.pending;
    stopped = inv.stopped;
    left = λ e. absurd (left_get all_read e);
  }

  -- Every reachable state has the invariant.
  pub Reach-Inv : {t : Timers} {p : Process} → Reach accepts t p → Inv p
  Reach-Inv start = record {
    knowing = tt;
    done = λ e. absurd (cc);
    pending = λ e. absurd (cc);
    stopped = λ s e. absurd (unset s e);
    left = λ e. absurd (cc);
  }
  Reach-Inv (later r st) = Step-Inv (Reach-Inv r) st
