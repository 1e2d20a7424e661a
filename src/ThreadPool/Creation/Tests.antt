-- ===== src/ThreadPool/Creation/Tests.antt =====
-- A pool of one thread is made, and one whose array of threads is refused.
use c_playground.Prelude.{ℕ, ◌≡◌, refl, true, false, none, some, [], ◌∷◌, arith, ℕ_discrete}
use c_playground.Machine.{pos}
use c_playground.ThreadPool.Store.{World, ok, bsem_init}
use c_playground.ThreadPool.Queue.{init_queue}
use c_playground.ThreadPool.Workers.{
  System, register, ready, by_worker, by_client, Reach, start, later, idle,
}
use c_playground.ThreadPool.Creation.{
  Calls, running, Blocks, Grants, made, with_queue, thpool_init, thread_init,
}
use c_playground.ThreadPool.Creation.Laws.{returned-started}

abbrev no_queue : World
no_queue = record {
  cells = λ _. none;
  front = none;
  rear = none;
  bsem = none;
  initialized = false;
  sleepers = 3;
  released = 4;
  len = 7;
}

abbrev every_call : ℕ → Calls
every_call i = record { malloc = true; attr_init = true; attr_setstacksize = true; create = true }

abbrev no_array : Grants
no_array = record { pool = true; semaphore = true; threads = false }

abbrev everything : Grants
everything = record { pool = true; semaphore = true; threads = true }

abbrev one_queue : World
one_queue = record {
  cells = λ _. none;
  front = none;
  rear = none;
  bsem = some 0;
  initialized = true;
  sleepers = 0;
  released = 0;
  len = 0;
}

abbrev one_pool : Blocks
one_pool = record { pool = true; threads = true; queue = one_queue }

one_made : thpool_init everything 5 (pos 1) every_call no_queue ≡ ok (made (running ∷ []) one_pool)
unfolding thpool_init with_queue init_queue bsem_init
one_made = refl

-- A pool, and that its client has left `thpool_init`.
record Run : Type 0 where
  last : System
  reach : Reach (record { num_threads = 1; workers = 1 }) one_queue last

one_ready : Run
unfolding ℕ_discrete
one_ready = record {
  last = _;
  reach =
      later (later start (by_worker 0 (omega arith) (register refl))) (by_client (ready refl refl));
}

one_ready_idle : one_ready.last.pool.client ≡ idle
unfolding one_ready
one_ready_idle = refl

returned-started_example : thread_init (every_call 0) ≡ ok (pos 0, running)
returned-started_example =
    returned-started everything 5 (pos 1) every_call no_queue refl one_made one_ready.reach
      (λ e. absurd (let i = one_ready_idle in cc)) 0 (omega arith)
