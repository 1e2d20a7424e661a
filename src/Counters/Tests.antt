-- ===== src/Counters/Tests.antt =====
-- A run of condition_variables.c: `func2` counts to 5, `func1` sleeps, is woken at 7 and counts on.
use c_playground.Prelude.{
  ℕ, zero, suc, ◌≡◌, ◌≤◌, refl, Bool, true, false, Option, none, some, ◌⊎◌, ℕ_discrete,
}
use c_playground.Counters.{
  Pc, entering, testing, asleep, signalled, leaving, waiting, counting, releasing, checking, exited,
  Shared, halts, Both, lock, unlock, lock_count, increment, unlock_count, check, System, Step,
  first, second, sleep, pass, wake, notify, Reach, start, later,
}
use c_playground.Counters.Safety.{final_count, no_deadlock}

record Run : Type 0 where
  last : System
  reach : Reach last

next_both : (m : Shared) (p : Pc) → Option ((m' : Shared) × (p' : Pc) × Both m p m' p')
next_both m entering = elim (ℕ_discrete m.condition_mutex 1) [
  | yes e ↦ some (_, _, lock e)
  | no _ ↦ none
]
next_both m leaving = some (_, _, unlock)
next_both m waiting = elim (ℕ_discrete m.count_mutex 1) [
  | yes e ↦ some (_, _, lock_count e)
  | no _ ↦ none
]
next_both m counting = some (_, _, increment)
next_both m releasing = some (_, _, unlock_count)
next_both m checking = some (_, _, check)
next_both m _ = none

by_first :
    (r : Run) → Option ((m' : Shared) × (p' : Pc) × Both r.last.shared r.last.func1 m' p') → Run
by_first r none = r
by_first r (some (m, p, b)) = record { last = _; reach = later r.reach (first b) }

by_second :
    (r : Run) → Option ((m' : Shared) × (p' : Pc) × Both r.last.shared r.last.func2 m' p') → Run
by_second r none = r
by_second r (some (m, p, b)) = record { last = _; reach = later r.reach (second b) }

test_count : (r : Run) → r.last.func1 ≡ testing → (b : Bool) → halts r.last.shared.count ≡ b → Run
test_count r e true h = record { last = _; reach = later r.reach (sleep e h) }
test_count r e false h = record { last = _; reach = later r.reach (pass e h) }

turn_first : (r : Run) (p : Pc) → r.last.func1 ≡ p → Run
unfolding by_first next_both test_count
turn_first r testing e = test_count r e (halts r.last.shared.count) refl
turn_first r signalled e = elim (ℕ_discrete r.last.shared.condition_mutex 1) [
  | yes free ↦ record { last = _; reach = later r.reach (wake e free) }
  | no _ ↦ r
]
turn_first r _ e = by_first r (next_both r.last.shared r.last.func1)

turn_second : (r : Run) (p : Pc) → r.last.func2 ≡ p → Run
unfolding by_second next_both
turn_second r testing e = record { last = _; reach = later r.reach (notify e) }
turn_second r _ e = by_second r (next_both r.last.shared r.last.func2)

-- Turns of `func1`, then of `func2`.
turns : (n k : ℕ) → Run → Run
unfolding turn_first turn_second
turns zero zero r = r
turns zero (suc k) r = turns zero k (turn_second r r.last.func2 refl)
turns (suc n) k r = turns n k (turn_first r r.last.func1 refl)

abbrev begin : Run
begin = record { last = _; reach = start }

-- `func2` has counted five times, `func1` sleeps.
sleeping : Run
unfolding turns ℕ_discrete
sleeping = turns 2 0 (turns 0 35 begin)

sleeping_at : (sleeping.last.func1 ≡ asleep) × (sleeping.last.shared.count ≡ 5)
unfolding sleeping
sleeping_at = (refl, refl)

-- Both have ended.
ended : Run
unfolding sleeping
ended = turns 9 0 (turns 0 60 sleeping)

no_deadlock_example :
    ((sleeping.last.func1 ≡ exited) × (sleeping.last.func2 ≡ exited))
    ⊎ ((t : System) × Step false sleeping.last t)
no_deadlock_example = no_deadlock sleeping.reach

final_count_example :
    (ended.last.shared.count ≤ 11)
    × (ended.last.func1 ≡ exited → 10 ≤ ended.last.shared.count)
    × (ended.last.func2 ≡ exited → 10 ≤ ended.last.shared.count)
final_count_example = final_count ended.reach

ended_at : (ended.last.func1 ≡ exited) × (ended.last.shared.count ≡ 11)
unfolding ended
ended_at = (refl, refl)
