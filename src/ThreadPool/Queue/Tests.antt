-- ===== src/ThreadPool/Queue/Tests.antt =====
-- The job queue at concrete jobs.
use c_playground.Prelude.{true, ℕ, zero, suc, ◌≡◌, refl, Option, none, some, List, [], ◌∷◌, arith}
use c_playground.ThreadPool.Store.{Task, Job, World, undefined}
use c_playground.ThreadPool.Chain.{Entry}
use c_playground.ThreadPool.Queue.{drain, clear}
use c_playground.ThreadPool.Queue.Laws.{IsQueue}
use c_playground.ThreadPool.Queue.Clearing.{Emptied, clear-Drained}
use c_playground.ThreadPool.Queue.Fifo.{
  IsMalloc, Call, submit, work, serve, InOrder, tasks, serve-InOrder,
}

abbrev hello : Task
hello = record { function = 1000; args = 1 }

abbrev world_task : Task
world_task = record { function = 1000; args = 2 }

-- Jobs at the addresses 3 and 8 wait, one at 5 is allocated.
abbrev heap : ℕ → Option Job
heap (suc (suc (suc zero))) = some (record { prev = some 8; task = hello })
heap (suc (suc (suc (suc (suc zero))))) = some (record { prev = some 3; task = hello })
heap (suc (suc (suc (suc (suc (suc (suc (suc zero)))))))) =
    some (record { prev = none; task = world_task })
heap _ = none

abbrev two_jobs : World
two_jobs = record {
  cells = heap;
  front = some 3;
  rear = some 8;
  bsem = some 0;
  initialized = true;
  sleepers = 0;
  released = 0;
  len = 2;
}

abbrev entries : List Entry
entries = (3, hello) ∷ (8, world_task) ∷ []

two_jobs-IsQueue : IsQueue entries two_jobs
two_jobs-IsQueue = record {
  linked = (refl, refl, (omega arith, tt), (refl, refl, refl));
  counted = refl;
  small = omega arith;
  v = 0;
  posted = refl;
  made = refl;
}

clear-Drained_example : Emptied entries two_jobs (drain 2 two_jobs) × (clear two_jobs ≡ undefined)
clear-Drained_example = clear-Drained two_jobs entries two_jobs-IsQueue

-- An allocator with one address.
abbrev seven : Option Job → Option ℕ
seven none = some 7
seven (some _) = none

abbrev one_cell : (ℕ → Option Job) → Option ℕ
one_cell cells = seven (cells 7)

seven-free : (c : Option Job) (a : ℕ) → seven c ≡ some a → (a ≡ 7) × (c ≡ none)
seven-free none a e = (cc, refl)
seven-free (some _) a e = absurd cc

one_cell-IsMalloc : IsMalloc one_cell
one_cell-IsMalloc cells a e = let f = seven-free (cells 7) a e in rw f.0 f.1

abbrev calls : List Call
calls = work ∷ submit hello ∷ work ∷ submit hello ∷ work ∷ []

serve-InOrder_example : InOrder (tasks entries) (serve one_cell none calls two_jobs)
serve-InOrder_example =
    serve-InOrder one_cell none one_cell-IsMalloc calls two_jobs entries two_jobs-IsQueue
      (omega arith)
