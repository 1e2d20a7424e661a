-- ===== src/Increments/Tests.antt =====
-- A run of mutex_example.c with its two threads.
use c_playground.Prelude.{◌≡◌, refl, arith, ℕ_discrete}
use c_playground.Increments.{
  Pc, Shared, Move, lock, read, write, unlock, System, Step, move, create, all_created, join, Reach,
  start, later,
}
use c_playground.Increments.Laws.{counts_all}

record Run : Type 0 where
  last : System
  reach : Reach 2 last

next : (r : Run) {s : System} → Step 2 r.last s → Run
next r step = record { last = _; reach = later r.reach step }

by_first : (r : Run) {m : Shared} {p : Pc} → Move r.last.shared (r.last.pc 0) m p → Run
unfolding next
by_first r mv = next r (move 0 (omega arith) mv)

by_second : (r : Run) {m : Shared} {p : Pc} → Move r.last.shared (r.last.pc 1) m p → Run
unfolding next
by_second r mv = next r (move 1 (omega arith) mv)

-- The first thread locks before the second one is there.
both_made : Run
unfolding next by_first ℕ_discrete
both_made =
    next
      (next
        (by_first (next (record { last = _; reach = start }) (create 0 refl (omega arith)))
          (lock refl))
        (create 1 refl (omega arith)))
      (all_created refl)

both_out : Run
unfolding both_made by_second
both_out =
    by_second
      (by_second
        (by_second
          (by_second (by_first (by_first (by_first both_made read) (write 0)) unlock) (lock refl))
          read)
        (write 1))
      unlock

all_joined : Run
unfolding both_out
all_joined = next (next both_out (join 0 refl (omega arith) refl)) (join 1 refl (omega arith) refl)

counts_all_example : all_joined.last.shared.counter ≡ 2
unfolding all_joined
counts_all_example = counts_all all_joined.reach refl
