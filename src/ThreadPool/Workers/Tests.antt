-- ===== src/ThreadPool/Workers/Tests.antt =====
-- Runs of a thread pool of common/thpool.c with one worker.
use c_playground.Prelude.{
  true, ℕ, ◌+◌, ◌*◌, ◌≤◌, ◌<◌, ◌≡◌, refl, none, some, List, [], arith, ◌⊎◌, total, ℕ_discrete,
}
use c_playground.ThreadPool.Store.{Task, World, undefined, bsem_wait, bsem_sleep, bsem_post}
use c_playground.ThreadPool.Chain.{Entry}
use c_playground.ThreadPool.Queue.{
  add_work, link, unlink, pull, pull_job, push, drain, destroy_queue,
}
use c_playground.ThreadPool.Queue.Clearing.{Emptied}
use c_playground.ThreadPool.Queue.Laws.{IsQueue}
use c_playground.ThreadPool.Workers.{
  Pc, leaving, exited, Pool, Setup, System, Work, register, test, test_off, take, doze, retest,
  enter, pull_next, call, add_more, free_job, finish, quit, ready, submit, lock, see_len, jobs_wait,
  see_working, unlock, stop, check_dead, Act, by_worker, by_client, Reach, start, later,
}
use c_playground.ThreadPool.Workers.Defs.{registered, busy, holds, holds_client, carried}
use c_playground.ThreadPool.Workers.Calls.{IsMade}
use c_playground.ThreadPool.Workers.Weights.{weigh, weigh_waiting}
use c_playground.ThreadPool.Workers.Moving.{Defined}
use c_playground.ThreadPool.Workers.Sleepers.{dozes, tests}
use c_playground.ThreadPool.Workers.Draining.{Working, none_yet, one_more, moves, adds, earlies}
use c_playground.ThreadPool.Workers.Waking.{GoesOn, wait_ends, no_post_lost}
use c_playground.ThreadPool.Workers.Service.{
  pool_counters, tasks_conserved, wait_done, workers-Defined, destroy_drains,
}

abbrev one_worker : Setup
one_worker = record { num_threads = 1; workers = 1 }

abbrev fresh_queue : World
fresh_queue = record {
  cells = λ _. none;
  front = none;
  rear = none;
  bsem = some 0;
  initialized = true;
  sleepers = 0;
  released = 0;
  len = 0;
}

fresh-IsQueue : IsQueue [] fresh_queue
fresh-IsQueue = record {
  linked = (refl, refl);
  counted = refl;
  small = omega arith;
  v = 0;
  posted = refl;
  made = refl;
}

one_worker-IsMade : IsMade one_worker fresh_queue
one_worker-IsMade = record { asked = omega arith; empty = fresh-IsQueue }

abbrev job_task : Task
job_task = record { function = 3; args = 8 }

-- A run, and its continuations by a step of the worker or of the client.
record Run : Type 0 where
  last : System
  reach : Reach one_worker fresh_queue last

by_one : (r : Run) {m : Pool} {p : Pc} → Work r.last.pool (r.last.pc 0) m p → Run
by_one r w = record { last = _; reach = later r.reach (by_worker 0 (omega arith) w) }

then : (r : Run) {m : Pool} → Act 1 r.last.pool m → Run
then r a = record { last = _; reach = later r.reach (by_client a) }

pool_ready : Run
unfolding by_one then ℕ_discrete
pool_ready = then (by_one (record { last = _; reach = start }) (register refl)) (ready refl refl)

one_waits : Run
unfolding pool_ready add_work push link bsem_post
one_waits = then pool_ready (submit (some 4) none job_task refl refl (omega arith) refl)

carrying : Run
unfolding one_waits pull_job pull unlink bsem_wait
carrying =
    by_one
      (by_one (by_one (by_one (by_one one_waits (test refl)) (take refl)) (retest refl))
        (enter refl))
      (pull_next 4 job_task refl)

ran : Run
unfolding carrying
ran = by_one carrying (call 4 job_task)

-- The job adds another one, which the same worker takes up later.
adding : Run
unfolding ran add_work push link bsem_post
adding =
    by_one ran
      (add_more 4 (some 8) none (record { function = 5; args = 2 }) refl (omega arith) refl)

waited : Run
unfolding ran
waited =
    then
      (then
        (then (then (by_one (by_one ran (free_job 4 refl)) (finish refl)) (lock refl refl))
          (see_len refl refl))
        (see_working refl refl))
      (unlock refl)

over : Run
unfolding pool_ready
over =
    then (by_one (by_one (then pool_ready (stop refl)) (test_off refl)) (quit refl))
      (check_dead refl refl)

pool_counters_example :
    (carrying.last.pool.num_threads_alive ≡ total registered 1 carrying.last.pc)
    × (carrying.last.pool.num_threads_working ≡ total busy 1 carrying.last.pc)
    × (carrying.last.pool.thcount_lock
          + total holds 1 carrying.last.pc
          + holds_client carrying.last.pool.client
        ≡ 1)
pool_counters_example = pool_counters one_worker-IsMade carrying.reach

tasks_conserved_example :
    (es : List Entry) × IsQueue es adding.last.pool.queue
    × (weigh (λ t. t.args) adding.last.pool.submitted
        ≡ weigh (λ t. t.args) adding.last.pool.called
          + weigh_waiting (λ t. t.args) es
          + total (carried (λ t. t.args)) 1 adding.last.pc)
unfolding adding
tasks_conserved_example =
    tasks_conserved one_worker-IsMade adding.reach (λ t. t.args) (λ e. absurd (cc))

wait_done_example :
    (waited.last.pool.queue.len ≡ 0)
    × (weigh (λ t. t.args) waited.last.pool.submitted ≡ weigh (λ t. t.args) waited.last.pool.called)
unfolding waited
wait_done_example = wait_done one_worker-IsMade waited.reach (λ t. t.args) refl

sleeping : Run
unfolding one_waits
sleeping = then (then one_waits (lock refl refl)) (jobs_wait refl (omega arith))

-- The worker takes the job up while the client sleeps.
record Busy : Type 0 where
  last : System
  steps : Working one_worker sleeping.last last

by_it : (b : Busy) {m : Pool} {p : Pc} → Work b.last.pool (b.last.pc 0) m p → Busy
by_it b w = record { last = _; steps = one_more b.steps 0 (omega arith) w }

woken_up : Busy
unfolding by_it sleeping ℕ_discrete bsem_wait
woken_up = by_it (by_it (record { last = _; steps = none_yet }) (test refl)) (take refl)

wait_ends_example :
    (moves woken_up.steps
      ≤ 11 * sleeping.last.pool.queue.len
        + 13 * 1
        + 22 * adds woken_up.steps
        + 2 * earlies woken_up.steps
        + 8)
    × GoesOn one_worker woken_up.last
unfolding woken_up
wait_ends_example =
    wait_ends one_worker-IsMade refl refl sleeping.reach (omega arith) woken_up.steps refl

-- The worker sleeps on the semaphore when the job comes, and is let go.
let_go : Run
unfolding pool_ready by_one then ℕ_discrete bsem_sleep add_work push link bsem_post
let_go =
    then (by_one (by_one pool_ready (test refl)) (doze refl))
      (submit (some 4) none job_task refl refl (omega arith) refl)

no_post_lost_example :
    (let_go.last.pool.queue.sleepers + let_go.last.pool.queue.released
      ≡ total dozes 1 let_go.last.pc)
    × ((let_go.last.pool.queue.sleepers ≡ 0)
        ⊎ (0 < let_go.last.pool.queue.released + total tests 1 let_go.last.pc))
unfolding let_go
no_post_lost_example = no_post_lost one_worker-IsMade refl refl let_go.reach refl

workers-Defined_example : Defined ran.last.pool.queue (ran.last.pc 0)
workers-Defined_example = workers-Defined one_worker-IsMade ran.reach 0

destroy_drains_example :
    ((i : ℕ) → i < 1 → (over.last.pc i ≡ leaving) ⊎ (over.last.pc i ≡ exited))
    × (es : List Entry) × IsQueue es over.last.pool.queue
    × Emptied es over.last.pool.queue (drain over.last.pool.queue.len over.last.pool.queue)
    × (destroy_queue over.last.pool.queue ≡ undefined)
unfolding over
destroy_drains_example = destroy_drains one_worker-IsMade over.reach refl
