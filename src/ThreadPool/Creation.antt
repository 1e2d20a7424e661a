-- ===== src/ThreadPool/Creation.antt =====
-- common/thpool.c: how `thpool_init` and `thread_init` make a pool, and what they leave when a call
-- of the system fails.
pub mod Laws
mod Tests
use c_playground.Prelude.{
  ℕ, zero, suc, ◌+◌, ◌≡◌, ◌≤◌, ◌<◌, refl, Bool, true, false, Option, none, some, List, [], ◌∷◌,
  arith, if◌then◌else◌, length,
}
use c_playground.Machine.{ℤ, pos, negsuc}
use c_playground.ThreadPool.Store.{World, Result, ok, undefined, out_of_fuel, exits, bsem_init}
use c_playground.ThreadPool.Queue.{init_queue, destroy_queue}

-- Which calls of one `thread_init` succeed.
pub record Calls : Type 0 where
  pub malloc : Bool
  pub attr_init : Bool
  pub attr_setstacksize : Bool
  pub create : Bool

-- What `thread_pool->threads[n]` is afterwards: NULL, a pointer to a block that was freed, or the
-- `thread_t` of a thread that runs.
pub data Slot : Type 0 where
  null : Slot
  dangling : Slot
  running : Slot

-- `thread_init`. The result of `pthread_create` is not looked at: when it fails, `pthread_detach` gets
-- an id that was never written, which is undefined.
abbrev pub thread_init : Calls → Result (ℤ × Slot)
thread_init c =
    if c.malloc
    then if c.attr_init
      then if c.attr_setstacksize
        then if c.create then ok (pos 0, running) else undefined
        else ok (negsuc 0, dangling)
      else ok (negsuc 0, dangling)
    else ok (negsuc 0, null)

abbrev pub and_then : {A B : Type 0} → Result A → (A → Result B) → Result B
and_then (ok a) f = f a
and_then undefined f = undefined
and_then out_of_fuel f = out_of_fuel
and_then exits f = exits

-- The loop over `thread_init`, for the ids from `id` on.
abbrev pub init_threads : (calls : ℕ → Calls) (id left : ℕ) → Result (List Slot)
init_threads calls id zero = ok []
init_threads calls id (suc left) =
    let rest = init_threads calls (suc id) left in
    and_then (thread_init (calls id)) λ r. and_then rest λ slots. ok (r.1 ∷ slots)

abbrev pub runs : Slot → ℕ
runs running = 1
runs _ = 0

abbrev pub workers : List Slot → ℕ
workers [] = 0
workers (s ∷ ss) = runs s + workers ss

-- Which blocks of the pool are allocated; `queue.bsem` says it of the semaphore.
pub record Blocks : Type 0 where
  pub pool : Bool
  pub threads : Bool
  pub queue : World

-- `free(thread_pool)`
abbrev free_pool : Blocks → Result Blocks
free_pool b = if b.pool then ok (record b { pool = false }) else undefined

-- What `thpool_init` is granted: the pool, the semaphore of the queue, and the array of threads.
pub record Grants : Type 0 where
  pub pool : Bool
  pub semaphore : Bool
  pub threads : Bool

-- `if (num_threads < 0) num_threads = 0`
abbrev pub at_least_zero : ℤ → ℕ
at_least_zero (pos n) = n
at_least_zero (negsuc n) = 0

-- NULL, or the threads of the pool; with the blocks that are allocated then.
pub data Made : Type 0 where
  failed : Blocks → Made
  made : List Slot → Blocks → Made

abbrev give_up : Blocks → Result Made
give_up b = and_then (free_pool b) λ b'. ok (failed b')

-- Behind `jobqueue_init`.
abbrev with_queue : (threads : Bool) (n : ℕ) → (ℕ → Calls) → ℤ × World → Result Made
unfolding destroy_queue
with_queue threads n calls (negsuc _, q) =
    give_up (record { pool = true; threads = false; queue = q })
with_queue true n calls (pos _, q) =
    and_then (init_threads calls 0 n)
      λ slots. ok (made slots (record { pool = true; threads = true; queue = q }))
with_queue false n calls (pos _, q) =
    and_then (destroy_queue q) λ r. give_up (record { pool = true; threads = false; queue = r.1 })

-- `thpool_init` up to its last loop, with the value that the semaphore happens to have.
pub thpool_init : Grants → (v : ℕ) → (num_threads : ℤ) → (ℕ → Calls) → World → Result Made
unfolding init_queue
thpool_init g v num_threads calls w =
    if g.pool
    then and_then (init_queue g.semaphore v w)
        (with_queue g.threads (at_least_zero num_threads) calls)
    else ok (failed (record { pool = false; threads = false; queue = w }))
