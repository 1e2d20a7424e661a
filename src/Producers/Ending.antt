-- ===== src/Producers/Ending.antt =====
-- That the producers and consumers of multiple_producer_consumer.c come to rest.
use c_playground.Prelude.{
  ℕ, zero, suc, ◌+◌, ◌-◌, ◌*◌, ◌≤◌, ◌≡◌, true, false, Option, arith, total, total-update,
  total-zero, total-suc,
}
use c_playground.Producers.{Buffer, buffer_create}
use c_playground.Producers.System.{
  Setup, System, pick, Reach, start, later, producer, consumer, Pc, outside, holding, inside,
  unlocking, posting, Move, wait_empty, wait_full, lock, produce, consume, unlock, post_full,
  post_empty, watch, check, release, threads, first_pc,
}
use c_playground.Producers.Invariant.{
  IsCreated, Reach-Inv, Inv-InBounds, size_room, produce_body_cases, consume_body_cases,
}
use c_playground.Producers.Invariant.Defs.{Inv, slots}

-- How far a thread is from its next wait, with what the post on its way lets others do.
abbrev rank : Pc → ℕ
rank (outside producer) = 10
rank (holding producer) = 9
rank (inside producer) = 8
rank (unlocking producer false) = 17
rank (posting producer false) = 16
rank (unlocking producer true) = 7
rank (posting producer true) = 6
rank (outside consumer) = 1
rank (holding consumer) = 5
rank (inside consumer) = 4
rank (unlocking consumer _) = 3
rank (posting consumer _) = 2
rank _ = 0

-- What is left for the threads: numbers to generate, posts of `full`, and their way.
abbrev left : Setup → Buffer → (ℕ → Pc) → ℕ
left c b pc = 10 * (c.max_generate - b.num_gen) + 5 * b.full + total rank (threads c) pc

-- 1 for a move of a producer or a consumer, 0 for one of `main`.
abbrev pub work :
    {max : ℕ} {b b' : Buffer} {p p' : Pc} {moved : Option ℕ} → Move max b p b' p' moved → ℕ
work (watch _) = 0
work check = 0
work (release _) = 0
work _ = 1

module _ {c : Setup} {b : Buffer} {pc : ℕ → Pc} (inv : Inv c b pc) where
  Move-left :
      {p p' : Pc} {b' : Buffer} {moved : Option ℕ} (mv : Move c.max_generate b p b' p' moved)
      → b.size + slots p ≤ c.capacity
      → 10 * (c.max_generate - b'.num_gen) + 5 * b'.full + rank p' + work mv
        ≤ 10 * (c.max_generate - b.num_gen) + 5 * b.full + rank p
  Move-left (wait_empty h) room = omega arith
  Move-left (wait_full h) room = omega arith
  Move-left (lock producer h) room = omega arith
  Move-left (lock consumer h) room = omega arith
  Move-left (produce rand {o} h) room = ground (
    arith,
    produce_body_cases c.max_generate rand b (Inv-InBounds inv) (omega (arith, inv.room)) h,
  )
  Move-left (consume {o} h) room =
      ground (arith, consume_body_cases c.max_generate b (Inv-InBounds inv) h)
  Move-left (unlock producer true) room = omega arith
  Move-left (unlock producer false) room = omega arith
  Move-left (unlock consumer leaves) room = omega arith
  Move-left (post_full true) room = omega arith
  Move-left (post_full false) room = omega arith
  Move-left (post_empty true) room = omega arith
  Move-left (post_empty false) room = omega arith
  Move-left (watch h) room = omega arith
  Move-left check room = omega arith
  Move-left (release true) room = omega arith
  Move-left (release false) room = omega arith

-- The moves that producers and consumers have made.
abbrev pub worked : {c : Setup} {b : Buffer} {s : System} → Reach c b s → ℕ
worked start = 0
worked (later r (pick i lt mv)) = worked r + work mv

-- What the threads start with.
total-first :
    (c : Setup) (n : ℕ)
    → total rank n (first_pc c)
      ≤ 10 * (n - (n - c.producers)) + (n - c.producers - (n - (c.producers + c.consumers)))
total-first c zero = omega (arith, total-zero rank (first_pc c))
total-first c (suc n) = ground (arith, total-first c n, total-suc rank n (first_pc c))

created_empty : {c : Setup} {b : Buffer} → IsCreated c b → b.full ≡ 0
unfolding buffer_create
created_empty f = ground (arith, f.created)

module _ {c : Setup} {b : Buffer} (f : IsCreated c b) where
  Reach-left :
      {s : System} (r : Reach c b s)
      → left c s.mem s.pc + worked r ≤ 10 * c.max_generate + 10 * c.producers + c.consumers
  Reach-left start = omega (arith, total-first c (threads c), created_empty f)
  Reach-left (later {s} r (pick i {p = p} lt mv)) =
      let inv = Reach-Inv f r in
      let step = Move-left inv mv (size_room inv i lt) in
      omega (arith, step, Reach-left r, total-update rank (threads c) s.pc i p lt)

  -- However the producers, the consumers and `main` interleave: in all, the producers and consumers
  -- make at most 10 moves for each number to generate, 10 for each producer and one for each consumer.
  pub work_ends :
      {s : System} (r : Reach c b s)
      → worked r ≤ 10 * c.max_generate + 10 * c.producers + c.consumers
  work_ends r = omega (arith, Reach-left r)
