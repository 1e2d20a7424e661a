-- ===== src/Daemon/Laws.antt =====
-- What simple_daemon.c makes sure of before it works, and how it ends.
use c_playground.Prelude.{zero, suc, ◌≡◌, refl, Bool, true, false, ◌&&◌, some, List, if◌then◌else◌}
use c_playground.Machine.{ℤ, pos, negsuc}
use c_playground.Calls.{
  Ending, exit_success, exit_failure, ends, call, made, ending, negative, nonzero, Protocol,
  Follows, Safe, Safe-Follows, some_marked, EndsBy, either, ending-EndsBy,
}
use c_playground.Daemon.{
  Signal, sigint, sigsegv, sigterm, Call, fork, sigaction, setsid, chdir, sleep, big_loop,
  redirected, new_session, behind_fork, daemon,
}

-- How far a process is detached from the terminal that it was started at.
pub record Life : Type 0 where
  pub child : Bool
  pub int_asked : Bool
  pub segv_asked : Bool
  pub term_asked : Bool
  pub leader : Bool
  pub at_root : Bool

abbrev pub started : Life
started = record {
  child = false;
  int_asked = false;
  segv_asked = false;
  term_asked = false;
  leader = false;
  at_root = false;
}

-- A process that may lead its group must not call `setsid`, which would refuse; a daemon works (here:
-- sleeps) as the leader of its session, in /, behind its three calls of `sigaction`.
abbrev pub allowed : Call → Life → Bool
allowed setsid s = s.child
allowed sleep s = s.child && s.int_asked && s.segv_asked && s.term_asked && s.leader && s.at_root
allowed _ s = true

abbrev ask : Signal → Life → Life
ask sigint s = record s { int_asked = true }
ask sigsegv s = record s { segv_asked = true }
ask sigterm s = record s { term_asked = true }

-- What `sigaction` returns is not looked at: a process has asked for a signal, whether or not the call
-- has succeeded.
abbrev pub after : Call → ℤ → Life → Life
after fork r s = if nonzero r then s else record s { child = true }
after (sigaction sig) r s = ask sig s
after setsid r s = if negative r then s else record s { leader = true }
after chdir r s = if negative r then s else record s { at_root = true }
after _ r s = s

abbrev pub detaching : Protocol Call Life
detaching = record { allowed = allowed; after = after }

-- A call that `main` tests has failed.
abbrev pub fails : Call → ℤ → Bool
fails fork r = negative r
fails setsid r = negative r
fails chdir r = negative r
fails _ r = false

abbrev ready : Life
ready = record {
  child = true;
  int_asked = true;
  segv_asked = true;
  term_asked = true;
  leader = true;
  at_root = true;
}

big_loop-Safe : Safe detaching big_loop ready
big_loop-Safe = (refl, tested)
  where
    tested :
        (r : ℤ)
        → Safe detaching
            (if nonzero r then (call sleep λ left. ends exit_success) else ends exit_success)
            ready
    tested (pos zero) = tt
    tested (pos (suc n)) = (refl, λ left. tt)
    tested (negsuc n) = (refl, λ left. tt)

new_session-Safe : Safe detaching new_session (record ready { leader = false; at_root = false })
new_session-Safe = (refl, with_session)
  where
    with_root :
        (r : ℤ)
        → Safe detaching
            (if negative r then ends exit_failure else redirected)
            (after chdir r (record ready { at_root = false }))
    with_root (pos n) = (refl, λ i. (refl, λ o. (refl, λ e. big_loop-Safe)))
    with_root (negsuc n) = tt

    with_session :
        (r : ℤ)
        → Safe detaching
            (if negative r
              then ends exit_failure
              else call chdir λ r. if negative r then ends exit_failure else redirected)
            (after setsid r (record ready { leader = false; at_root = false }))
    with_session (pos n) = (refl, with_root)
    with_session (negsuc n) = tt

-- Whatever the calls return: a process of simple_daemon.c that calls `setsid` is the child of the
-- `fork`, and one that gets to its work has called `sigaction` for each of the three signals, with
-- success or not, leads a session of its own and is in /.
pub daemon-Follows : (answers : List ℤ) → Follows detaching started (made daemon answers)
unfolding daemon
daemon-Follows answers = Safe-Follows detaching daemon started answers (refl, forked)
  where
    forked : (pid : ℤ) → Safe detaching (behind_fork pid) (after fork pid started)
    forked (pos zero) = (refl, λ m. (refl, λ r. (refl, λ r. (refl, λ r. new_session-Safe))))
    forked (pos (suc n)) = tt
    forked (negsuc n) = tt

-- Whatever the calls return: a process that ends does so with EXIT_FAILURE when `fork`, `setsid` or
-- `chdir` has failed in it, and with EXIT_SUCCESS otherwise.
pub daemon-ends :
    (answers : List ℤ) (e : Ending)
    → ending daemon answers ≡ some e
    → e ≡ (if some_marked fails (made daemon answers) then exit_failure else exit_success)
unfolding daemon
daemon-ends answers e h =
    ending-EndsBy fails exit_failure exit_success daemon false answers e forked h
  where
    looped : EndsBy fails exit_failure exit_success big_loop false
    looped r = either fails exit_failure exit_success (nonzero r) false _ _ (λ left. refl) refl

    in_root :
        (r : ℤ)
        → EndsBy fails exit_failure exit_success
            (if negative r then ends exit_failure else redirected)
            (negative r)
    in_root (pos n) = λ i o e. looped
    in_root (negsuc n) = refl

    in_session :
        (r : ℤ)
        → EndsBy fails exit_failure exit_success
            (if negative r
              then ends exit_failure
              else call chdir λ r. if negative r then ends exit_failure else redirected)
            (negative r)
    in_session (pos n) = in_root
    in_session (negsuc n) = refl

    forked : (pid : ℤ) → EndsBy fails exit_failure exit_success (behind_fork pid) (negative pid)
    forked (pos zero) = λ mask r r' r''. in_session
    forked (pos (suc n)) = refl
    forked (negsuc n) = refl
