-- ===== src/Handle/Tests.antt =====
-- Three jobs of thpool_test.c that all pass their tests below the limit.
use c_playground.Prelude.{ℕ, zero, suc, ◌<◌, ◌≤◌, ◌≡◌, refl, arith, ℕ_discrete}
use c_playground.Handle.{
  Pc, returned, Handle, Move, begin, below, reached, read, write, System, move, Reach, start, later,
}
use c_playground.Handle.Laws.{limit_reached}

record Run : Type 0 where
  last : System
  reach : Reach 3 0 1 last

by_job :
    (i : ℕ) → i < 3 → (r : Run) {h : Handle} {p : Pc} → Move r.last.handle (r.last.pc i) h p → Run
by_job i lt r m = record { last = _; reach = later r.reach (move i lt m) }

all_below : Run
unfolding by_job ℕ_discrete
all_below =
    by_job 2 (omega arith)
      (by_job 2 (omega arith)
        (by_job 1 (omega arith)
          (by_job 1 (omega arith)
            (by_job 0 (omega arith)
              (by_job 0 (omega arith) (record { last = _; reach = start }) begin)
              (below (omega arith)))
            begin)
          (below (omega arith)))
        begin)
      (below (omega arith))

-- Each of them increments, so that the number is 3 where the limit is 1.
all_counted : Run
unfolding all_below
all_counted =
    by_job 2 (omega arith)
      (by_job 2 (omega arith)
        (by_job 1 (omega arith)
          (by_job 1 (omega arith)
            (by_job 0 (omega arith) (by_job 0 (omega arith) all_below read) (write 0 (omega arith)))
            read)
          (write 1 (omega arith)))
        read)
      (write 2 (omega arith))

all_returned : Run
unfolding all_counted
all_returned =
    by_job 2 (omega arith)
      (by_job 1 (omega arith) (by_job 0 (omega arith) all_counted (reached (omega arith)))
        (reached (omega arith)))
      (reached (omega arith))

beyond : all_returned.last.handle.number ≡ 3
unfolding all_returned
beyond = refl

everyone_back : (i : ℕ) → i < 3 → all_returned.last.pc i ≡ returned
unfolding all_returned
everyone_back zero lt = refl
everyone_back (suc zero) lt = refl
everyone_back (suc (suc zero)) lt = refl
everyone_back (suc (suc (suc i))) lt = absurd (omega (arith, lt))

limit_reached_example : 1 ≤ all_returned.last.handle.number
limit_reached_example = limit_reached (omega arith) all_returned.reach everyone_back
