-- ===== src/Producers/Invariant.antt =====
-- The invariant of multiple_producer_consumer.c: what the semaphores count, what the buffer holds,
-- and what a thread that leaves its loop has seen.
mod Bodies
mod Moves
pub mod Defs
pub use Moves.{Inv-InBounds, size_room}
pub use Bodies.*
use Moves.{Move-Inv}
use c_playground.Prelude.{
  ℕ, zero, suc, ◌+◌, ◌^◌, ◌<◌, ◌≡◌, refl, Option, none, some, List, true, arith, length, dec_lt,
  total, total-const_zero,
}
use c_playground.Producers.{Buffer, buffer_create}
use c_playground.Producers.System.{
  Role, Setup, System, Step, pick, Reach, start, later, Pc, outside, first_pc, threads, init,
}
use c_playground.Producers.Invariant.Defs.{locks, slots, drains, Settled, Inv}

-- The buffer that `buffer_create` returns when both allocations succeed.
pub record IsCreated (c : Setup) (b : Buffer) : Type 0 where
  pub cells : List ℕ
  pub room : length cells ≡ c.capacity
  pub created : buffer_create true (some cells) c.capacity ≡ some b
  pub small : c.capacity < 2 ^ 31
  pub limit : c.max_generate < 2 ^ 31

module _ {c : Setup} {b : Buffer} (f : IsCreated c b) where
  first-zero :
      (w : Pc → ℕ)
      → ((r : Role) → w (outside r) ≡ 0)
      → w Pc.watching ≡ 0
      → total w (threads c) (first_pc c) ≡ 0
  first-zero w out watch =
      total-const_zero w (threads c) (first_pc c)
        λ i lt. ground (arith, out Role.producer, out Role.consumer)

  Inv-init : Inv c b (first_pc c)
  unfolding buffer_create
  Inv-init = record {
    small = f.small;
    limit = f.limit;
    guarded = ground (arith, first-zero locks (λ r. refl) refl);
    tokens = ground (
      arith,
      first-zero slots (λ r. ground arith) refl,
      first-zero drains (λ r. ground arith) refl,
    );
    backed = ground (arith, f.created);
    fixed = ground (arith, f.created);
    room = ground (arith, f.created);
    top = ground (arith, f.created);
    balance = ground (arith, f.created);
    bounded = ground (arith, f.created);
    settled = λ i. ground arith;
  }

pub Reach-Inv :
    {c : Setup} {b : Buffer} {s : System} → IsCreated c b → Reach c b s → Inv c s.mem s.pc
Reach-Inv f start = Inv-init f
Reach-Inv f (later r (pick i lt mv)) = Move-Inv (Reach-Inv f r) i lt mv
