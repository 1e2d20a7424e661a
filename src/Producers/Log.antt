-- ===== src/Producers/Log.antt =====
-- No number is lost or consumed twice: the logs of multiple_producer_consumer.c as multisets.
use c_playground.Prelude.{
  ℕ, ◌+◌, ◌<◌, ◌≤◌, ◌≡◌, Option, List, arith, count, take, count-take-set, count-take-get_elem?,
  ◌⊎◌, inl, inr, true, false, ◌%◌,
}
use c_playground.Producers.{Buffer, Outcome, buffer_create}
use c_playground.Producers.System.{
  Setup, System, pick, Reach, start, later, Pc, Move, inside, consumer, log_in, log_out, wait_empty,
  lock, produce, consume,
}
use c_playground.Producers.Invariant.{
  IsCreated, Reach-Inv, Inv-InBounds, Idle, Popped, produce_body_cases, consume_body_cases,
  size_room,
}
use c_playground.Producers.Invariant.Defs.{Inv, slots}

-- The numbers in the buffer: the first `size` cells of `data`.
abbrev pub stored : Buffer → List ℕ
stored b = take b.size b.items

module _ {c : Setup} {b : Buffer} {pc : ℕ → Pc} (inv : Inv c b pc) (x : ℕ) where
  Popped-balance :
      {o : Outcome} (puts gets : List ℕ)
      → ((b.num_con ≡ c.max_generate) × Idle b o × (o.leaves ≡ true))
        ⊎ (((b.num_con < c.max_generate) × (b.size ≡ 0) × Idle b o × (o.leaves ≡ false))
            ⊎ ((b.num_con < c.max_generate) × (0 < b.size) × Popped b o))
      → count x puts ≡ count x gets + count x (stored b)
      → count x puts ≡ count x (log_out (inside consumer) o.moved gets) + count x (stored o.buffer)
  Popped-balance puts gets (inl (l, idle, e)) same = ground arith
  Popped-balance puts gets (inr (inl (l, z, idle, e))) same = ground arith
  Popped-balance puts gets (inr (inr (l, pos, pop))) same =
      ground (arith, inv.top, count-take-get_elem? x b.items b.size pos (rw inv.top at pop.found))

  Move-balance :
      {p p' : Pc} {b' : Buffer} {moved : Option ℕ} (puts gets : List ℕ)
      → Move c.max_generate b p b' p' moved
      → b.size + slots p ≤ c.capacity
      → count x puts ≡ count x gets + count x (stored b)
      → count x (log_in p moved puts) ≡ count x (log_out p moved gets) + count x (stored b')
  Move-balance puts gets (wait_empty h) room e = e
  Move-balance puts gets (produce rand {o} h) room e = ground (
    arith,
    produce_body_cases c.max_generate rand b (Inv-InBounds inv) (omega arith) h,
    count-take-set x b.items b.size (rand % 100),
  )
  Move-balance puts gets (consume {o} h) room e =
      Popped-balance puts gets (consume_body_cases c.max_generate b (Inv-InBounds inv) h) e
  Move-balance puts gets (lock r h) room e = e
  Move-balance puts gets mv room e = e

-- The consumed and stored numbers together are the produced ones, each as often.
pub balanced :
    {c : Setup} {b : Buffer} {s : System}
    → IsCreated c b
    → Reach c b s
    → (x : ℕ) → count x s.produced ≡ count x s.consumed + count x (stored s.mem)
unfolding buffer_create
balanced f start x = ground (arith, f.created)
balanced f (later {s} r (pick i lt mv)) x =
    Move-balance (Reach-Inv f r) x s.produced s.consumed mv (size_room (Reach-Inv f r) i lt)
      (balanced f r x)
