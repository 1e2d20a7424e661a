-- ===== src/Producers/Invariant/Moves.antt =====
-- A move of thread `i` keeps the invariant.
use mathlib.Core.Logic.{if_pos, if_neg}
use c_playground.Prelude.{
  ℕ, ◌+◌, ◌%◌, ◌≤◌, ◌<◌, ◌≡◌, true, Option, length, ℕ_discrete, update, total, total-update,
  le-total, arith, length-set,
}
use c_playground.Producers.{Buffer, all_done}
use c_playground.Producers.System.{
  Setup, producer, consumer, Pc, unlocking, posting, finished, releasing, returned, Move,
  wait_empty, wait_full, lock, produce, consume, unlock, post_full, post_empty, watch, check,
  release, threads,
}
use c_playground.Producers.Invariant.Defs.{locks, slots, drains, Settled, Inv}
use c_playground.Producers.Invariant.Bodies.{InBounds, produce_body_cases, consume_body_cases}

pub Inv-InBounds : {c : Setup} {b : Buffer} {pc : ℕ → Pc} → Inv c b pc → InBounds c.max_generate b
Inv-InBounds inv = record {
  small = omega arith;
  limit = omega arith;
  room = omega arith;
  top = omega arith;
  fits = omega arith;
  balance = omega arith;
  bounded = omega arith;
}

-- A thread that holds a free slot finds it in the buffer.
pub size_room :
    {c : Setup} {b : Buffer} {pc : ℕ → Pc}
    → Inv c b pc
    → (i : ℕ) → i < threads c
    → b.size + slots (pc i) ≤ c.capacity
size_room {c} {pc} inv i lt = omega (arith, le-total slots (threads c) pc i lt)

module _ {c : Setup} {b : Buffer} {pc : ℕ → Pc} (inv : Inv c b pc) (i : ℕ) where
  abbrev n : ℕ
  n = threads c

  abbrev max : ℕ
  max = c.max_generate

  -- Thread `i` goes from `p` to `p'`. A match on `Move` needs the variable `p` for `pc i`.
  record Mover (p p' : Pc) : Type 0 where
    here : Settled max b p
    lock_count : total locks n (update pc i p') + locks p ≡ total locks n pc + locks p'
    slot_count : total slots n (update pc i p') + slots p ≡ total slots n pc + slots p'
    drain_count : total drains n (update pc i p') + drains p ≡ total drains n pc + drains p'
    own_slot : slots p ≤ total slots n pc
    own_drain : drains p ≤ total drains n pc

  mover : i < n → (p' : Pc) → Mover (pc i) p'
  mover lt p' = record {
    here = inv.settled i;
    lock_count = total-update locks n pc i p' lt;
    slot_count = total-update slots n pc i p' lt;
    drain_count = total-update drains n pc i p' lt;
    own_slot = le-total slots n pc i lt;
    own_drain = le-total drains n pc i lt;
  }

  in_bounds : InBounds max b
  in_bounds = Inv-InBounds inv

  -- The fields of `Inv` that are about sums.
  record Counts (b' : Buffer) (p' : Pc) : Type 0 where
    guarded : b'.mutex + total locks n (update pc i p') ≡ 1
    tokens :
        b'.empty + b'.full + total slots n (update pc i p') + total drains n (update pc i p')
        ≡ c.capacity
    backed : b'.size ≤ b'.full + total drains n (update pc i p')

  -- The fields about the buffer alone, and that no thread's settled fact is undone.
  record Shape (b' : Buffer) : Type 0 where
    fixed : b'.capacity ≡ c.capacity
    room : length b'.items ≡ c.capacity
    top : b'.dataptr ≡ b'.size
    balance : b'.num_gen ≡ b'.num_con + b'.size
    bounded : b'.num_gen ≤ max
    gen_kept : b.num_gen ≡ max → b'.num_gen ≡ max
    con_kept : b.num_con ≡ max → b'.num_con ≡ max

  Settled-mono : (b' : Buffer) → Shape b' → (p : Pc) → Settled max b p → Settled max b' p
  Settled-mono b' s (unlocking producer true) h = s.gen_kept h
  Settled-mono b' s (posting producer true) h = s.gen_kept h
  Settled-mono b' s (finished producer) h = s.gen_kept h
  Settled-mono b' s (unlocking consumer true) h = s.con_kept h
  Settled-mono b' s (posting consumer true) h = s.con_kept h
  Settled-mono b' s (finished consumer) h = s.con_kept h
  Settled-mono b' s (releasing true) h = (s.gen_kept h.0, s.con_kept h.1)
  Settled-mono b' s returned h = (s.gen_kept h.0, s.con_kept h.1)
  Settled-mono b' s _ h = tt

  Settled-kept :
      {b' : Buffer} (p' : Pc)
      → Shape b'
      → Settled max b' p'
      → (j : ℕ) → Settled max b' (update pc i p' j)
  Settled-kept {b'} p' s own j = elim (ℕ_discrete i j) [
    | yes e ↦ rw (if_pos _ e) own
    | no n ↦ rw (if_neg _ n) (Settled-mono b' s (pc j) (inv.settled j))
  ]

  Move-Counts :
      {p p' : Pc} {b' : Buffer} {moved : Option ℕ}
      → Move max b p b' p' moved
      → Mover p p'
      → Counts b' p'
  Move-Counts (wait_empty h) f = ground arith
  Move-Counts (wait_full h) f = ground arith
  Move-Counts (lock r h) f = ground arith
  Move-Counts (produce rand {o} h) f =
      ground (arith, produce_body_cases max rand b in_bounds (omega arith) h)
  Move-Counts (consume {o} h) f = ground (arith, consume_body_cases max b in_bounds h)
  Move-Counts (unlock r leaves) f = ground arith
  Move-Counts (post_full leaves) f = ground arith
  Move-Counts (post_empty leaves) f = ground arith
  Move-Counts (watch h) f = ground arith
  Move-Counts check f = ground arith
  Move-Counts (release leaves) f = ground arith

  Move-Shape :
      {p p' : Pc} {b' : Buffer} {moved : Option ℕ}
      → Move max b p b' p' moved
      → Mover p p'
      → Shape b'
  Move-Shape (wait_empty h) f = ground arith
  Move-Shape (wait_full h) f = ground arith
  Move-Shape (lock r h) f = ground arith
  Move-Shape (produce rand {o} h) f = ground (
    arith,
    produce_body_cases max rand b in_bounds (omega arith) h,
    length-set b.items b.dataptr (rand % 100),
  )
  Move-Shape (consume {o} h) f = ground (arith, consume_body_cases max b in_bounds h)
  Move-Shape (unlock r leaves) f = ground arith
  Move-Shape (post_full leaves) f = ground arith
  Move-Shape (post_empty leaves) f = ground arith
  Move-Shape (watch h) f = ground arith
  Move-Shape check f = ground arith
  Move-Shape (release leaves) f = ground arith

  Move-Settled :
      {p p' : Pc} {b' : Buffer} {moved : Option ℕ}
      → Move max b p b' p' moved
      → Mover p p'
      → Settled max b' p'
  unfolding all_done
  Move-Settled (wait_empty h) f = ground arith
  Move-Settled (wait_full h) f = ground arith
  Move-Settled (lock r h) f = ground arith
  Move-Settled (produce rand {o} h) f =
      ground (arith, produce_body_cases max rand b in_bounds (omega arith) h)
  Move-Settled (consume {o} h) f = ground (arith, consume_body_cases max b in_bounds h)
  Move-Settled (unlock r leaves) f = ground arith
  Move-Settled (post_full leaves) f = ground arith
  Move-Settled (post_empty leaves) f = ground arith
  Move-Settled (watch h) f = ground arith
  Move-Settled check f = ground arith
  Move-Settled (release leaves) f = ground arith

pub Move-Inv :
    {c : Setup} {b b' : Buffer} {pc : ℕ → Pc} {p : Pc} {moved : Option ℕ}
    → Inv c b pc
    → (i : ℕ) → i < threads c
    → Move c.max_generate b (pc i) b' p moved
    → Inv c b' (update pc i p)
Move-Inv {b'} {p} inv i lt mv = record {
  small = inv.small;
  limit = inv.limit;
  guarded = counts.guarded;
  tokens = counts.tokens;
  backed = counts.backed;
  fixed = shape.fixed;
  room = shape.room;
  top = shape.top;
  balance = shape.balance;
  bounded = shape.bounded;
  settled = Settled-kept inv i p shape (Move-Settled inv i mv (mover inv i lt p));
}
  where
    counts : Counts inv i b' p
    counts = Move-Counts inv i mv (mover inv i lt p)

    shape : Shape inv i b'
    shape = Move-Shape inv i mv (mover inv i lt p)
