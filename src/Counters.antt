-- ===== src/Counters.antt =====
-- Miscs/condition_variables.c: two threads that count together, one of which waits on a condition.
pub mod Moved
pub mod Invariant
pub mod Safety
mod Tests
use c_playground.Prelude.{
  ℕ, ◌+◌, ◌≡◌, ◌≤◌, ◌<◌, Bool, true, false, ltb, leb, ◌&&◌, ◌||◌, if◌then◌else◌,
}

abbrev pub count_done : ℕ
count_done = 10

abbrev pub count_halt1 : ℕ
count_halt1 = 3

abbrev pub count_halt2 : ℕ
count_halt2 = 6

-- Where `func1` or `func2` stands.
pub data Pc : Type 0 where
  entering : Pc  -- before the lock of `condition_mutex`
  testing : Pc  -- behind it
  asleep : Pc  -- in `pthread_cond_wait`
  signalled : Pc
  leaving : Pc  -- before the unlock of `condition_mutex`
  waiting : Pc  -- before the lock of `count_mutex`
  counting : Pc
  releasing : Pc  -- before its unlock
  checking : Pc  -- at `count >= COUNT_DONE`
  exited : Pc

-- `count`, and the two mutexes (1 when free).
pub record Shared : Type 0 where
  pub count : ℕ
  pub condition_mutex : ℕ
  pub count_mutex : ℕ

-- `count >= COUNT_HALT1 && count <= COUNT_HALT2`
abbrev pub halts : ℕ → Bool
halts count = leb count_halt1 count && leb count count_halt2

-- `if(count >= COUNT_DONE) return NULL;`
abbrev pub check_done : ℕ → Pc
check_done count = if leb count_done count then exited else entering

-- What both functions do behind their use of the condition.
pub data Both (m : Shared) : Pc → Shared → Pc → Type 0 where
  lock : m.condition_mutex ≡ 1 → Both m entering (record m { condition_mutex = 0 }) testing
  unlock : Both m leaving (record m { condition_mutex = 1 }) waiting
  lock_count : m.count_mutex ≡ 1 → Both m waiting (record m { count_mutex = 0 }) counting
  increment : Both m counting (record m { count = m.count + 1 }) releasing
  unlock_count : Both m releasing (record m { count_mutex = 1 }) checking
  check : Both m checking m (check_done m.count)

-- `pthread_cond_signal(&condition_cond)`
abbrev pub signal : Pc → Pc
signal asleep = signalled
signal p = p

-- `if(count < COUNT_HALT1 || count > COUNT_HALT2) pthread_cond_signal(...)`
abbrev pub signal_outside : ℕ → Pc → Pc
signal_outside count p = if ltb count count_halt1 || ltb count_halt2 count then signal p else p

pub record System : Type 0 where
  pub shared : Shared
  pub func1 : Pc
  pub func2 : Pc

-- Any thread may go on; `wakes` says whether a wake-up may be spurious.
pub data Step (wakes : Bool) (s : System) : System → Type 0 where
  first :
      {m : Shared} {p : Pc}
      → Both s.shared s.func1 m p
      → Step wakes s (record s { shared = m; func1 = p })
  second :
      {m : Shared} {p : Pc}
      → Both s.shared s.func2 m p
      → Step wakes s (record s { shared = m; func2 = p })
  sleep :
      s.func1 ≡ testing
      → halts s.shared.count ≡ true
      → Step wakes s (record s { shared = record s.shared { condition_mutex = 1 }; func1 = asleep })
  pass :
      s.func1 ≡ testing → halts s.shared.count ≡ false → Step wakes s (record s { func1 = leaving })
  spurious : wakes ≡ true → s.func1 ≡ asleep → Step wakes s (record s { func1 = signalled })
  wake :
      s.func1 ≡ signalled
      → s.shared.condition_mutex ≡ 1
      → Step wakes s
          (record s { shared = record s.shared { condition_mutex = 0 }; func1 = testing })
  notify :
      s.func2 ≡ testing
      → Step wakes s (record s { func1 = signal_outside s.shared.count s.func1; func2 = leaving })

-- `main` behind the two calls of `pthread_create`.
abbrev pub init : System
init = record {
  shared = record { count = 0; condition_mutex = 1; count_mutex = 1 };
  func1 = entering;
  func2 = entering;
}

pub data Reach : System → Type 0 where
  start : Reach init
  later : {s t : System} → Reach s → Step true s t → Reach t
