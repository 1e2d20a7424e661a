-- ===== src/Producers.antt =====
-- Pthread/multiple_producer_consumer.c: `buffer_t`, its operations, and the loops of `do_produce`,
-- `do_consume` and `main`, one semaphore call or one locked body at a time.
pub mod System
pub mod Invariant
pub mod Safety
pub mod Log
pub mod Progress
pub mod Ending
pub mod Startup
mod Tests
use c_playground.Prelude.{
  ℕ, ◌+◌, ◌-◌, ◌%◌, ◌^◌, ◌<◌, ◌≡◌, Bool, true, false, ◌&&◌, Option, none, some, List, [], ltb, ◌==◌,
  if◌then◌else◌, length, get_elem?, set,
}

-- `buffer_t`. `dataptr` is an offset from `data`; a semaphore is its value.
pub record Buffer : Type 0 where
  pub num_gen : ℕ  -- unsigned int
  pub num_con : ℕ  -- unsigned int
  pub capacity : ℕ  -- size_t
  pub size : ℕ  -- size_t
  pub items : List ℕ  -- the ints at `data`
  pub dataptr : ℕ
  pub mutex : ℕ
  pub empty : ℕ
  pub full : ℕ

-- `buffer_create`: `handle` says whether the first `malloc` succeeds, `memory` is what the second
-- one returns, with indeterminate content.
pub buffer_create : (handle : Bool) (memory : Option (List ℕ)) → ℕ → Option Buffer
buffer_create false memory capacity = none
buffer_create true none capacity = none
buffer_create true (some cells) capacity = some (record {
  num_gen = 0;
  num_con = 0;
  capacity = capacity;
  size = 0;
  items = cells;
  dataptr = 0;
  mutex = 1;
  empty = capacity;
  full = 0;
})

-- `produce_item`, with what `rand` returns; `none` is a write outside `data`.
pub produce_item : (rand : ℕ) → Buffer → Option (ℕ × Buffer)
produce_item rand b =
    let number = rand % 100 in
    if ltb b.dataptr (length b.items)
    then some (
      number,
      record b {
        items = set b.items b.dataptr number;
        size = (b.size + 1) % 2 ^ 64;
        dataptr = b.dataptr + 1;
        num_gen = (b.num_gen + 1) % 2 ^ 32;
      },
    )
    else none

read_item : Option ℕ → Buffer → Option (ℕ × Buffer)
read_item none b = none
read_item (some number) b = some (number, b)

-- `consume_item`; `none` is a pointer or a read outside `data`.
pub consume_item : Buffer → Option (ℕ × Buffer)
unfolding read_item
consume_item b =
    if ltb 0 b.dataptr
    then read_item (get_elem? b.items (b.dataptr - 1)) (record b {
      size = (b.size + 2 ^ 64 - 1) % 2 ^ 64;
      dataptr = b.dataptr - 1;
      num_con = (b.num_con + 1) % 2 ^ 32;
    })
    else none

-- What a locked body leaves behind: the buffer, whether the thread leaves its loop, and the number
-- that went in or out.
pub record Outcome : Type 0 where
  pub buffer : Buffer
  pub leaves : Bool
  pub moved : Option ℕ

abbrev moved_item : Option (ℕ × Buffer) → Option Outcome
moved_item none = none
moved_item (some (number, b)) = some (record { buffer = b; leaves = false; moved = some number })

abbrev unchanged : Buffer → Bool → Option Outcome
unchanged b leaves = some (record { buffer = b; leaves = leaves; moved = none })

-- The body of the loop in `do_produce` between `sem_wait(&buffer->mutex)` and `sem_post`.
pub produce_body : (max_generate rand : ℕ) → Buffer → Option Outcome
unfolding produce_item
produce_body max_generate rand b =
    if max_generate == b.num_gen
    then unchanged b true
    else if ltb b.size b.capacity
    then moved_item (produce_item rand b)
    else unchanged b false

-- The same of `do_consume`.
pub consume_body : (max_generate : ℕ) → Buffer → Option Outcome
unfolding consume_item
consume_body max_generate b =
    if b.num_con == max_generate
    then unchanged b true
    else if ltb 0 b.size
    then moved_item (consume_item b)
    else unchanged b false

-- The test of the waiting loop in `main`.
pub all_done : (max_generate : ℕ) → Buffer → Bool
all_done max_generate b = (b.num_con == max_generate) && (b.num_gen == max_generate)
