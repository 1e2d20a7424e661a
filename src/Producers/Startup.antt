-- ===== src/Producers/Startup.antt =====
-- Pthread/multiple_producer_consumer.c: `main` up to its waiting loop, `threads_create`, and
-- `buffer_destroy`.
pub mod Laws
mod Tests
use c_playground.Prelude.{
  ℕ, zero, suc, ◌+◌, ◌≡◌, Bool, true, false, ◌||◌, Option, none, some, List, [], ◌∷◌, if◌then◌else◌,
}
use c_playground.Machine.{ℤ, pos, negsuc, ltb_ℤ}
use c_playground.Getopt.{Text, Library}
use c_playground.Producers.{Buffer, buffer_create}
use c_playground.Producers.System.{Setup}

-- Which calls of one round of `threads_create` succeed.
pub record Calls : Type 0 where
  pub malloc : Bool
  pub create : Bool
  pub detach : Bool

-- What `threads_create` returns, an array or NULL, and how many threads it has started.
pub record Threads : Type 0 where
  pub returned : Bool
  pub running : ℕ

-- The loop of `threads_create`, from the thread `i` on.
abbrev pub create_from : (calls : ℕ → Calls) (i left : ℕ) → Threads
create_from calls i zero = record { returned = true; running = i }
create_from calls i (suc left) =
    let rest = create_from calls (suc i) left in
    if (calls i).malloc
    then if (calls i).create
      then if (calls i).detach then rest else record { returned = false; running = suc i }
      else record { returned = false; running = i }
    else record { returned = false; running = i }

-- `threads_create`, for a positive number of threads.
abbrev pub threads_create : (calloc : Bool) → (calls : ℕ → Calls) → (num_pthread : ℕ) → Threads
threads_create true calls n = create_from calls 0 n
threads_create false calls n = record { returned = false; running = 0 }

-- `buffer_destroy`: no int is left that `data` or `dataptr` leads to. The handle is not freed.
abbrev pub buffer_destroy : Buffer → Buffer
buffer_destroy b = record b { items = []; dataptr = 0 }

-- What the system grants: the two blocks of the buffer, and the threads of both kinds.
pub record Grants : Type 0 where
  pub handle : Bool
  pub memory : Option (List ℕ)
  pub producers : Bool
  pub consumers : Bool
  pub producer_calls : ℕ → Calls
  pub consumer_calls : ℕ → Calls

-- Where `main` gets to: EXIT_FAILURE while there is no buffer; its `fail` label, with the number of
-- threads that it has started and what it does to the buffer under them; or its waiting loop.
pub data Main : Type 0 where
  exit_failure : Main
  gives_up : (running : ℕ) → (Buffer → Buffer) → Main
  waits : Setup → Buffer → Main

-- From the first call of `threads_create` on.
start_threads : Grants → Setup → Buffer → Main
start_threads g c b =
    let producers = threads_create g.producers g.producer_calls c.producers in
    let consumers = threads_create g.consumers g.consumer_calls c.consumers in
    if producers.returned
    then if consumers.returned
      then waits c b
      else gives_up (producers.running + consumers.running) buffer_destroy
    else gives_up producers.running buffer_destroy

-- With a buffer or without.
abbrev with_buffer : Grants → Setup → Option Buffer → Main
unfolding start_threads
with_buffer g c none = exit_failure
with_buffer g c (some b) = start_threads g c b

-- Behind `fopen`, with the four numbers. `malloc` of a negative number of bytes, which is a huge
-- `size_t`, is refused.
accept : Grants → (num_producer num_consumer capacity max_generate : ℤ) → Main
unfolding with_buffer buffer_create
accept g (pos (suc p)) (pos (suc q)) (pos k) (pos n) =
    with_buffer g (record { producers = suc p; consumers = suc q; capacity = k; max_generate = n })
      (buffer_create g.handle g.memory k)
accept g p q k n = exit_failure

abbrev with_log : Option ℕ → Main → Main
with_log none m = exit_failure
with_log (some fp) m = m

-- `main`
pub run_main : Library → Grants → (argv : List Text) → Main
unfolding accept
run_main lib g (program ∷ log_fname ∷ p ∷ q ∷ k ∷ n ∷ []) =
    with_log (lib.fopen log_fname) (accept g (lib.atoi p) (lib.atoi q) (lib.atoi k) (lib.atoi n))
run_main lib g argv = exit_failure
