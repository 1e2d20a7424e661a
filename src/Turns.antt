-- ===== src/Turns.antt =====
-- Pthread/producer_consumer.c: `buf_t`, one producer and one consumer that take turns under a mutex.
pub mod Bodies
pub mod System
pub mod Invariant
pub mod Safety
pub mod Options
pub mod Main
mod Tests
use c_playground.Prelude.{
  ℕ, zero, suc, ◌+◌, ◌-◌, ◌%◌, ◌^◌, ◌<◌, ◌≡◌, Bool, true, false, Option, none, some, List, ltb,
  ◌==◌, if◌then◌else◌, length, get_elem?, set,
}
use c_playground.Machine.{ℤ, pos, ◌-ℤ◌, ltb_ℤ}

abbrev pub num_gen_per_loop : ℕ
num_gen_per_loop = 5

-- `buf_t` with the globals that the threads share. `total_gen_num` is the producer's own.
pub record Shared : Type 0 where
  pub capacity : ℕ  -- size_t
  pub size : ℕ  -- size_t
  pub items : List ℕ  -- the ints at `data`
  pub num_has_gen : ℕ  -- int
  pub num_has_read : ℕ  -- int
  pub total_gen_num : ℤ  -- int
  pub mutex : ℕ

-- The start of `main`, for any value of the global `num_gen` (800 in the source), with what the second `malloc` leaves at `data`.
pub start_state : (num_gen buffer_capacity : ℕ) (cells : List ℕ) → Shared
start_state num_gen buffer_capacity cells = record {
  capacity = buffer_capacity;
  size = 0;
  items = cells;
  num_has_gen = 0;
  num_has_read = 0;
  total_gen_num = pos num_gen;
  mutex = 1;
}

-- The `for` of `producer_stuff`, where `contents i` is what `rand` returns in round i; `none` is a
-- write outside `data`.
pub fill : (n : ℕ) (contents : ℕ → ℕ) → Shared → Option Shared
fill zero contents s = some s
fill (suc n) contents s =
    let rest =
      fill n (λ i. contents (i + 1))
        (record s {
          items = set s.items s.size (contents 0 % 10 % 10);
          size = (s.size + 1) % 2 ^ 64;
        }) in
    if ltb s.size (length s.items) then rest else none

-- `MIN`
abbrev pub min : ℕ → ℕ → ℕ
min x y = if ltb y x then y else x

-- `buf->capacity - buf->size`, a `size_t`.
abbrev pub room : Shared → ℕ
room s = (s.capacity + 2 ^ 64 - s.size) % 2 ^ 64

-- The two counts at the end; `none` is an overflow of `int`.
count_generated : ℕ → Option Shared → Option Shared
count_generated n none = none
count_generated n (some s) =
    if ltb (s.num_has_gen + n) (2 ^ 31)
    then some
        (record s { total_gen_num = s.total_gen_num -ℤ pos n; num_has_gen = s.num_has_gen + n })
    else none

-- The turn of the producer between `sem_wait` and either `sem_post`.
pub produce_turn : (rand : ℕ) (contents : ℕ → ℕ) → Shared → Option Shared
unfolding fill count_generated
produce_turn rand contents s =
    let num_to_gen = min (rand % num_gen_per_loop) (room s) in
    if ltb 0 (room s)
    then if num_to_gen == 0 then some s else count_generated num_to_gen (fill num_to_gen contents s)
    else some s

read_last : Option ℕ → Shared → Option Shared
read_last none s = none
read_last (some number) s =
    if ltb (s.num_has_read + 1) (2 ^ 31)
    then some (record s { size = s.size - 1; num_has_read = s.num_has_read + 1 })
    else none

-- The turn of the consumer; `none` is a read outside `data`, for the log, or an
-- overflow of `int`.
pub consume_turn : Shared → Option Shared
unfolding read_last
consume_turn s = if ltb 0 s.size then read_last (get_elem? s.items (s.size - 1)) s else some s
