-- ===== src/Signals.antt =====
-- Linux/Signals/signal_timer_example.c: the handlers of three signals, which may interrupt each other
-- and `main`, and the loop of `main`.
pub mod Known
pub mod Invariant
pub mod Safety
mod Tests
use c_playground.Prelude.{ℕ, ◌≡◌, Bool, true, false, ◌&&◌, List, [], ◌∷◌, if◌then◌else◌}

pub data Signal : Type 0 where
  sigalrm : Signal
  sigvtalrm : Signal
  sigprof : Signal

-- `struct itimerval`: both times in seconds and microseconds.
pub record Itimerval : Type 0 where
  pub interval_sec : ℕ
  pub interval_usec : ℕ
  pub value_sec : ℕ
  pub value_usec : ℕ

-- The three timers of the process, each by the signal that it sends: ITIMER_REAL, ITIMER_VIRTUAL and
-- ITIMER_PROF.
pub record Timers : Type 0 where
  pub real : Itimerval
  pub virtual : Itimerval
  pub prof : Itimerval

abbrev pub timer : Signal → Timers → Itimerval
timer sigalrm t = t.real
timer sigvtalrm t = t.virtual
timer sigprof t = t.prof

abbrev pub replace : Signal → Itimerval → Timers → Timers
replace sigalrm new t = record t { real = new }
replace sigvtalrm new t = record t { virtual = new }
replace sigprof new t = record t { prof = new }

-- `setitimer`, with whether it accepts the call; a refused call changes nothing.
abbrev pub setitimer : (accepts : Signal → Itimerval → Bool) → Signal → Itimerval → Timers → Timers
setitimer accepts signal new t = if accepts signal new then replace signal new t else t

-- The globals `receive_sigalrm`, `receive_sigvtalrm`, `receive_sigprof` and `loop_is_done`.
pub record Flags : Type 0 where
  pub receive_sigalrm : Bool
  pub receive_sigvtalrm : Bool
  pub receive_sigprof : Bool
  pub loop_is_done : Bool

abbrev pub received : Signal → Flags → Bool
received sigalrm f = f.receive_sigalrm
received sigvtalrm f = f.receive_sigvtalrm
received sigprof f = f.receive_sigprof

abbrev pub receive : Signal → Flags → Flags
receive sigalrm f = record f { receive_sigalrm = true }
receive sigvtalrm f = record f { receive_sigvtalrm = true }
receive sigprof f = record f { receive_sigprof = true }

abbrev pub all_received : Flags → Bool
all_received f = f.receive_sigalrm && (f.receive_sigvtalrm && f.receive_sigprof)

-- Where a handler stands: before `setitimer`, before it sets its flag, at one of the three reads of
-- `check_received_signal`, or before `loop_is_done = 1`.
pub data Place : Type 0 where
  stopping : Place
  setting : Place
  checking_alrm : Place
  checking_vtalrm : Place
  checking_prof : Place
  finishing : Place

pub record Frame : Type 0 where
  pub signal : Signal
  pub place : Place

pub data Main : Type 0 where
  testing : Main  -- `while (!loop_is_done)`
  reading : Main  -- at the three GET_TIMER
  left_loop : Main
  failed : Main  -- behind `goto end`

-- The process; the handlers that run stand in `frames`, the one that interrupted last first.
pub record Process : Type 0 where
  pub timers : Timers
  pub flags : Flags
  pub frames : List Frame
  pub main : Main

abbrev pub stop : Itimerval
stop = record { interval_sec = 0; interval_usec = 0; value_sec = 0; value_usec = 0 }

-- The next place of a handler, or its return.
abbrev go_on : Signal → Place → List Frame → List Frame
go_on signal place rest = record { signal = signal; place = place } ∷ rest

-- One read of `check_received_signal`: a flag that is not set ends the handler.
abbrev pub check : (flag : Bool) → Signal → Place → List Frame → List Frame
check true signal next rest = go_on signal next rest
check false signal next rest = rest

-- One step of `handle_sigalrm`, `handle_sigvtalrm` or `handle_sigprof`, above the frames `rest`.
abbrev pub handle :
    (accepts : Signal → Itimerval → Bool) → Signal → Place → List Frame → Process → Process
handle accepts signal stopping rest p = record p {
  timers = setitimer accepts signal stop p.timers;
  frames = go_on signal setting rest;
}
handle accepts signal setting rest p = record p {
  flags = receive signal p.flags;
  frames = go_on signal checking_alrm rest;
}
handle accepts signal checking_alrm rest p = record p {
  frames = check p.flags.receive_sigalrm signal checking_vtalrm rest;
}
handle accepts signal checking_vtalrm rest p = record p {
  frames = check p.flags.receive_sigvtalrm signal checking_prof rest;
}
handle accepts signal checking_prof rest p = record p {
  frames = check p.flags.receive_sigprof signal finishing rest;
}
handle accepts signal finishing rest p = record p {
  flags = record p.flags { loop_is_done = true };
  frames = rest;
}

-- A timer of `sec` seconds.
abbrev every : (sec : ℕ) → Itimerval
every sec = record { interval_sec = sec; interval_usec = 0; value_sec = sec; value_usec = 0 }

-- `setup_timer`
abbrev pub setup_timer : (accepts : Signal → Itimerval → Bool) → Timers → Timers
setup_timer accepts t =
    setitimer accepts sigprof (every 1)
      (setitimer accepts sigvtalrm (every 2) (setitimer accepts sigalrm (every 5) t))

-- One step of the process: a signal arrives, the handler on top goes on, or `main` does. The model
-- lets a signal interrupt its own handler too, which is blocked on Linux.
pub data Step (accepts : Signal → Itimerval → Bool) (p : Process) : Process → Type 0 where
  deliver :
      (signal : Signal)
      → Step accepts p
          (record p { frames = record { signal = signal; place = stopping } ∷ p.frames })
  run :
      (signal : Signal) (place : Place) (rest : List Frame)
      → p.frames ≡ record { signal = signal; place = place } ∷ rest
      → Step accepts p (handle accepts signal place rest p)
  test :
      p.frames ≡ []
      → p.main ≡ testing
      → Step accepts p (record p { main = if p.flags.loop_is_done then left_loop else reading })
  get_timers :
      (all_read : Bool)
      → p.frames ≡ []
      → p.main ≡ reading
      → Step accepts p (record p { main = if all_read then testing else failed })

abbrev pub no_flags : Flags
no_flags = record {
  receive_sigalrm = false;
  receive_sigvtalrm = false;
  receive_sigprof = false;
  loop_is_done = false;
}

-- `main` behind `setup_timer`, with the timers as they were before.
abbrev pub init : (accepts : Signal → Itimerval → Bool) → Timers → Process
init accepts t = record {
  timers = setup_timer accepts t;
  flags = no_flags;
  frames = [];
  main = testing;
}

pub data Reach (accepts : Signal → Itimerval → Bool) (t : Timers) : Process → Type 0 where
  start : Reach accepts t (init accepts t)
  later : {p q : Process} → Reach accepts t p → Step accepts p q → Reach accepts t q
