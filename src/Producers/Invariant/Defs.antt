-- ===== src/Producers/Invariant/Defs.antt =====
-- Weights of a thread's place, and the invariant.
use c_playground.Prelude.{ℕ, ◌+◌, ◌^◌, ◌≤◌, ◌<◌, ◌≡◌, true, length, total}
use c_playground.Producers.{Buffer}
use c_playground.Producers.System.{
  producer, consumer, Pc, holding, inside, unlocking, posting, finished, checking, releasing,
  returned, Setup, threads,
}

-- 1 for a thread between `sem_wait(&buffer->mutex)` and its `sem_post`.
abbrev pub locks : Pc → ℕ
locks (inside _) = 1
locks (unlocking _ _) = 1
locks checking = 1
locks (releasing _) = 1
locks _ = 0

-- 1 for a thread whose slot counts as free: taken from `empty` and not yet filled, or emptied.
abbrev pub slots : Pc → ℕ
slots (holding producer) = 1
slots (inside producer) = 1
slots (unlocking consumer _) = 1
slots (posting consumer _) = 1
slots _ = 0

-- 1 for a thread whose slot counts as filled: taken from `full`, or about to be posted there.
abbrev pub drains : Pc → ℕ
drains (holding consumer) = 1
drains (inside consumer) = 1
drains (unlocking producer _) = 1
drains (posting producer _) = 1
drains _ = 0

-- What holds for good once a thread has decided to leave its loop.
abbrev pub Settled : ℕ → Buffer → Pc → Type 0
Settled max b (unlocking producer true) = b.num_gen ≡ max
Settled max b (posting producer true) = b.num_gen ≡ max
Settled max b (finished producer) = b.num_gen ≡ max
Settled max b (unlocking consumer true) = b.num_con ≡ max
Settled max b (posting consumer true) = b.num_con ≡ max
Settled max b (finished consumer) = b.num_con ≡ max
Settled max b (releasing true) = (b.num_gen ≡ max) × (b.num_con ≡ max)
Settled max b returned = (b.num_gen ≡ max) × (b.num_con ≡ max)
Settled max b _ = Unit

pub record Inv (c : Setup) (b : Buffer) (pc : ℕ → Pc) : Type 0 where
  pub small : c.capacity < 2 ^ 31
  pub limit : c.max_generate < 2 ^ 31
  pub guarded : b.mutex + total locks (threads c) pc ≡ 1
  pub tokens :
      b.empty + b.full + total slots (threads c) pc + total drains (threads c) pc ≡ c.capacity
  pub backed : b.size ≤ b.full + total drains (threads c) pc
  pub fixed : b.capacity ≡ c.capacity
  pub room : length b.items ≡ c.capacity
  pub top : b.dataptr ≡ b.size
  pub balance : b.num_gen ≡ b.num_con + b.size
  pub bounded : b.num_gen ≤ c.max_generate
  pub settled : (i : ℕ) → Settled c.max_generate b (pc i)
