-- ===== src/Daemon.antt =====
-- Linux/Daemon/simple_daemon.c: `main` and `catch_signal` as the calls that they make by what the
-- calls return. The log is left out.
pub mod Laws
mod Tests
use c_playground.Prelude.{Bool, true, false, if◌then◌else◌}
use c_playground.Machine.{ℤ, pos, negsuc}
use c_playground.Calls.{
  Ending, exit_success, exit_failure, Program, ends, call, negative, positive, nonzero,
}

pub data Signal : Type 0 where
  sigint sigsegv sigterm : Signal

pub data Call : Type 0 where
  fork : Call
  umask : Call
  sigaction : Signal → Call  -- with `signal_handler`
  setsid : Call
  chdir : Call  -- to /
  open_null : (flags : ℤ) → Call
  read_keep_alive : Call  -- the global, which the handler may clear at any time
  sleep : Call

-- `catch_signal`, and what comes after it.
abbrev pub catch_signal : Program Call → Program Call
catch_signal p =
    call (sigaction sigint) λ r. call (sigaction sigsegv) λ r'. call (sigaction sigterm) λ r''. p

-- The loop. Its body ends with `break`.
abbrev pub big_loop : Program Call
big_loop = call read_keep_alive λ keep_alive.
    if nonzero keep_alive then (call sleep λ left. ends exit_success) else ends exit_success

-- Behind `chdir`.
abbrev pub redirected : Program Call
redirected =
    call (open_null (pos 0))
      λ in_fd. call (open_null (pos 1)) λ out_fd. call (open_null (pos 2)) λ err_fd. big_loop

-- From `setsid` on.
abbrev pub new_session : Program Call
new_session = call setsid λ sid.
    if negative sid
    then ends exit_failure
    else call chdir λ r. if negative r then ends exit_failure else redirected

abbrev pub behind_fork : (pid : ℤ) → Program Call
behind_fork pid =
    if negative pid
    then ends exit_failure
    else if positive pid
    then ends exit_success
    else call umask λ mask. catch_signal new_session

-- `main`
unfoldable pub daemon : Program Call
daemon = call fork behind_fork
