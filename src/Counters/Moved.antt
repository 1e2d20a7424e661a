-- ===== src/Counters/Moved.antt =====
-- What one step of either thread of condition_variables.c does to the mutexes and to `count`.
use c_playground.Prelude.{
  ℕ, ◌+◌, ◌≡◌, ◌≤◌, refl, Bool, true, false, ltb, leb, ◌||◌, arith, inl, inr, dec_lt, Bool-cases,
}
use c_playground.Counters.{
  Pc, entering, testing, asleep, signalled, leaving, waiting, counting, releasing, checking, exited,
  Shared, check_done, Both, lock, unlock, lock_count, increment, unlock_count, check, signal,
  signal_outside, System,
}

-- Holds `condition_mutex`.
abbrev pub holds : Pc → ℕ
holds testing = 1
holds leaving = 1
holds _ = 0

-- Holds `count_mutex`.
abbrev pub holds_count : Pc → ℕ
holds_count counting = 1
holds_count releasing = 1
holds_count _ = 0

-- Has counted and not yet begun another round.
abbrev pub past : Pc → ℕ
past releasing = 1
past checking = 1
past exited = 1
past _ = 0

-- Will look at the condition before it counts again.
abbrev pub ahead : Pc → ℕ
ahead leaving = 0
ahead waiting = 0
ahead counting = 0
ahead exited = 0
ahead _ = 1

-- Waits on the condition, or for the mutex behind it.
abbrev pub sleeps : Pc → Bool
sleeps asleep = true
sleeps signalled = true
sleeps _ = false

pub record Inv (s : System) : Type 0 where
  pub token : s.shared.condition_mutex + holds s.func1 + holds s.func2 ≡ 1
  pub token_count : s.shared.count_mutex + holds_count s.func1 + holds_count s.func2 ≡ 1
  pub bound : s.shared.count ≤ 9 + past s.func1 + past s.func2
  pub out1 : s.func1 ≡ exited → 10 ≤ s.shared.count
  pub out2 : s.func2 ≡ exited → 10 ≤ s.shared.count
  pub up : sleeps s.func2 ≡ false
  pub served : s.func1 ≡ asleep → s.shared.count ≤ 6 + ahead s.func2

-- What a step of either thread does to those.
pub record Moved (m : Shared) (p : Pc) (m' : Shared) (p' : Pc) : Type 0 where
  pub token : m'.condition_mutex + holds p' ≡ m.condition_mutex + holds p
  pub token_count : m'.count_mutex + holds_count p' ≡ m.count_mutex + holds_count p
  pub bound : (x : ℕ) → m.count ≤ 9 + past p + x → m'.count ≤ 9 + past p' + x
  pub grows : m.count ≤ m'.count
  pub out : p' ≡ exited → 10 ≤ m'.count
  pub up : sleeps p' ≡ false
  pub served : m.count ≤ 6 + ahead p → m'.count ≤ 6 + ahead p'

check-Moved : (m : Shared) → Moved m checking m (check_done m.count)
check-Moved m = elim (dec_lt m.count 10) [
  | yes below ↦
      let e : leb 10 m.count ≡ false = ground (arith, below) in
      rw e record {
        token = refl;
        token_count = refl;
        bound = λ x le. omega arith;
        grows = omega arith;
        out = λ e'. absurd (cc);
        up = refl;
        served = λ le. le;
      }
  | no above ↦
      let e : leb 10 m.count ≡ true = ground (arith, above) in
      rw e record {
        token = refl;
        token_count = refl;
        bound = λ x le. le;
        grows = omega arith;
        out = λ e'. omega arith;
        up = refl;
        served = λ le. absurd (omega arith);
      }
]

-- The signal changes nothing but that a sleeper is woken, and leaves no sleeper outside the limits.
abbrev Notified : ℕ → Pc → Pc → Type 0
Notified count p p' =
    (holds p' ≡ holds p)
    × (holds_count p' ≡ holds_count p)
    × (past p' ≡ past p)
    × (p' ≡ exited → p ≡ exited)
    × (p' ≡ asleep → count ≤ 6)

signal-Notified : (count : ℕ) (p : Pc) → Notified count p (signal p)
signal-Notified count asleep = (refl, refl, refl, λ e. absurd (cc), λ e. absurd (cc))
signal-Notified count entering = (refl, refl, refl, λ e. e, λ e. absurd (cc))
signal-Notified count testing = (refl, refl, refl, λ e. e, λ e. absurd (cc))
signal-Notified count signalled = (refl, refl, refl, λ e. e, λ e. absurd (cc))
signal-Notified count leaving = (refl, refl, refl, λ e. e, λ e. absurd (cc))
signal-Notified count waiting = (refl, refl, refl, λ e. e, λ e. absurd (cc))
signal-Notified count counting = (refl, refl, refl, λ e. e, λ e. absurd (cc))
signal-Notified count releasing = (refl, refl, refl, λ e. e, λ e. absurd (cc))
signal-Notified count checking = (refl, refl, refl, λ e. e, λ e. absurd (cc))
signal-Notified count exited = (refl, refl, refl, λ e. e, λ e. absurd (cc))

pub notified : (count : ℕ) (p : Pc) → Notified count p (signal_outside count p)
notified count p = elim (Bool-cases (ltb count 3 || ltb 6 count)) [
  | inl out ↦ rw out (signal-Notified count p)
  | inr inside ↦
      let small : count ≤ 6 = ground (arith, inside) in
      rw inside (refl, refl, refl, λ e. e, λ e. small)
]

pub Both-Moved :
    {m m' : Shared} {p p' : Pc}
    → m.condition_mutex + holds p ≤ 1
    → m.count_mutex + holds_count p ≤ 1
    → Both m p m' p'
    → Moved m p m' p'
Both-Moved one one_count (lock free) = record {
  token = omega arith;
  token_count = refl;
  bound = λ x le. le;
  grows = omega arith;
  out = λ e. absurd (cc);
  up = refl;
  served = λ le. le;
}
Both-Moved one one_count unlock = record {
  token = omega arith;
  token_count = refl;
  bound = λ x le. le;
  grows = omega arith;
  out = λ e. absurd (cc);
  up = refl;
  served = λ le. le;
}
Both-Moved one one_count (lock_count free) = record {
  token = refl;
  token_count = omega arith;
  bound = λ x le. le;
  grows = omega arith;
  out = λ e. absurd (cc);
  up = refl;
  served = λ le. le;
}
Both-Moved one one_count increment = record {
  token = refl;
  token_count = refl;
  bound = λ x le. omega arith;
  grows = omega arith;
  out = λ e. absurd (cc);
  up = refl;
  served = λ le. omega arith;
}
Both-Moved one one_count unlock_count = record {
  token = refl;
  token_count = omega arith;
  bound = λ x le. le;
  grows = omega arith;
  out = λ e. absurd (cc);
  up = refl;
  served = λ le. le;
}
Both-Moved {m} one one_count check = check-Moved m
