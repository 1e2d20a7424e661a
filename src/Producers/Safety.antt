-- ===== src/Producers/Safety.antt =====
-- What holds in every reachable state of multiple_producer_consumer.c.
use c_playground.Prelude.{
  ℕ, Option-cases, inl, inr, length, ◌+◌, ◌≤◌, ◌<◌, ◌≡◌, some, arith, le-total, add-le-total,
  dec_lt,
}
use c_playground.Producers.{Buffer, Outcome, produce_body, consume_body}
use c_playground.Producers.System.{Setup, System, Reach, producer, inside, returned, threads}
use c_playground.Producers.Invariant.{
  IsCreated, Reach-Inv, Inv-InBounds, size_room, produce_body_total, consume_body_total,
}
use c_playground.Producers.Invariant.Defs.{locks, Inv}

module _ {c : Setup} {b : Buffer} {s : System} (f : IsCreated c b) (r : Reach c b s) where
  -- Two different threads are never both between `sem_wait` and `sem_post` of the mutex, and the
  -- mutex is 0 while one of them is.
  pub mutual_exclusion :
      (i j : ℕ)
      → i < threads c
      → j < threads c
      → locks (s.pc i) ≡ 1
      → locks (s.pc j) ≡ 1
      → (i ≡ j) × (s.mem.mutex ≡ 0)
  mutual_exclusion i j hi hj li lj =
      (same, omega (arith, inv.guarded, le-total locks (threads c) s.pc i hi))
    where
      inv : Inv c s.mem s.pc
      inv = Reach-Inv f r

      same : i ≡ j
      same = elim (dec_lt i j) [
        | yes p ↦ absurd (omega (arith, inv.guarded, add-le-total locks (threads c) s.pc i j p hj))
        | no n ↦ elim (dec_lt j i) [
          | yes p ↦
              absurd (omega (arith, inv.guarded, add-le-total locks (threads c) s.pc j i p hi))
          | no m ↦ omega arith
        ]
      ]

  -- The counters agree with the buffer: what was generated is what was consumed and what is still
  -- stored, the limit is never passed, and the stored numbers fit.
  pub counters :
      (s.mem.num_gen ≡ s.mem.num_con + s.mem.size)
      × (s.mem.num_gen ≤ c.max_generate)
      × (s.mem.size ≤ c.capacity)
      × (s.mem.dataptr ≡ s.mem.size)
  counters =
      let inv = Reach-Inv f r in
      (inv.balance, inv.bounded, omega (arith, inv.tokens, inv.backed), inv.top)

  -- A producer at its locked body always finds room, so the branch "buffer is full" never runs and
  -- its write stays inside `data`.
  pub produce_has_room :
      (i rand : ℕ)
      → i < threads c
      → s.pc i ≡ inside producer
      → (s.mem.size < s.mem.capacity)
        × (o : Outcome) × (produce_body c.max_generate rand s.mem ≡ some o)
  produce_has_room i rand lt at = (room, done.0, done.1)
    where
      inv : Inv c s.mem s.pc
      inv = Reach-Inv f r

      room : s.mem.size < s.mem.capacity
      room = ground (arith, size_room inv i lt, inv.fixed)

      done : (o : Outcome) × (produce_body c.max_generate rand s.mem ≡ some o)
      done =
          produce_body_total c.max_generate rand s.mem (Inv-InBounds inv)
            (omega (arith, room, inv.room, inv.fixed))

  -- The locked body of a consumer never reads outside `data`.
  pub consume_in_bounds : (o : Outcome) × (consume_body c.max_generate s.mem ≡ some o)
  consume_in_bounds = consume_body_total c.max_generate s.mem (Inv-InBounds (Reach-Inv f r))

  -- In every reachable state both locked bodies are defined, whatever `rand` returns: neither writes nor
  -- reads outside `data`.
  pub bodies_in_bounds :
      (rand : ℕ)
      → ((o : Outcome) × (produce_body c.max_generate rand s.mem ≡ some o))
        × ((o : Outcome) × (consume_body c.max_generate s.mem ≡ some o))
  unfolding produce_body
  bodies_in_bounds rand = (produced, consume_in_bounds)
    where
      inv : Inv c s.mem s.pc
      inv = Reach-Inv f r

      produced : (o : Outcome) × (produce_body c.max_generate rand s.mem ≡ some o)
      produced = elim (dec_lt s.mem.size (length s.mem.items)) [
        | yes room ↦ produce_body_total c.max_generate rand s.mem (Inv-InBounds inv) room
        | no full ↦ elim (Option-cases (produce_body c.max_generate rand s.mem)) [
          | inl e ↦ absurd (ground (arith, full, e, inv.room, inv.fixed))
          | inr found ↦ found
        ]
      ]

  -- When `main` is out of its loop every number was generated and consumed, and none is stored.
  pub main_returns_done :
      (i : ℕ)
      → s.pc i ≡ returned
      → (s.mem.num_gen ≡ c.max_generate) × (s.mem.num_con ≡ c.max_generate) × (s.mem.size ≡ 0)
  main_returns_done i at = let inv = Reach-Inv f r in ground (arith, inv.settled i, inv.balance)
