-- ===== src/Turns/Invariant.antt =====
-- The invariant of producer_consumer.c and that every step keeps it.
use c_playground.Prelude.{
  ℕ, ◌+◌, ◌-◌, ◌≤◌, ◌<◌, ◌≡◌, refl, sym, ap, ◌∙◌, subst, Bool, true, false, some, List, arith,
  length, ltb, ◌==◌, ◌^◌, dec_lt, lt→ltb, ℕ_discrete,
}
use c_playground.Machine.{pos, ◌-ℤ◌, sub_ℕ, ltb_ℤ}
use c_playground.Turns.{Shared, start_state, produce_turn, consume_turn}
use c_playground.Turns.System.{
  Pc, waiting, inside, posting, exited, next_round, negate, Produce, test, lock, turn, post,
  Consume, read_test, read_lock, read_turn, read_post, System, by_producer, by_consumer, Reach,
  start, later,
}
use c_playground.Turns.Bodies.{
  IsBuffer, Produced, produce_turn-Produced, Consumed, consume_turn-Consumed,
}

abbrev pub holds : Pc → ℕ
holds inside = 1
holds posting = 1
holds _ = 0

-- The block that `main` allocates holds as many ints as the capacity says; `num_gen` is small
-- enough for `int`.
pub record IsAllocated (num_gen buffer_capacity : ℕ) (cells : List ℕ) : Type 0 where
  pub block : length cells ≡ buffer_capacity
  pub wide : buffer_capacity < 2 ^ 60
  pub ints : num_gen + 8 < 2 ^ 31

module _ (num_gen : ℕ) where
  -- What a thread knows of its own count against `num_gen`.
  abbrev pub ProducerAt : Pc → ℕ → Type 0
  ProducerAt waiting g = g < num_gen
  ProducerAt inside g = g < num_gen
  ProducerAt exited g = num_gen ≤ g
  ProducerAt _ g = Unit

  abbrev pub ConsumerAt : Pc → ℕ → Type 0
  ConsumerAt waiting r = r < num_gen
  ConsumerAt inside r = r < num_gen
  ConsumerAt exited r = r ≡ num_gen
  ConsumerAt _ r = Unit

  pub record Inv (m : Shared) (p c : Pc) : Type 0 where
    pub buffer : IsBuffer m
    pub balance : m.num_has_gen ≡ m.num_has_read + m.size
    pub owed : m.total_gen_num ≡ sub_ℕ num_gen m.num_has_gen
    pub bounded : m.num_has_gen ≤ num_gen + 3
    pub reads : m.num_has_read ≤ num_gen
    pub token : m.mutex + holds p + holds c ≡ 1
    pub at_producer : ProducerAt p m.num_has_gen
    pub at_consumer : ConsumerAt c m.num_has_read

  sub-sub : (g n : ℕ) → sub_ℕ num_gen g -ℤ pos n ≡ sub_ℕ num_gen (g + n)
  sub-sub g n = ground arith

  owes : (g : ℕ) → ltb_ℤ (pos 0) (sub_ℕ num_gen g) ≡ ltb g num_gen
  owes g = ground arith

  after_test : (g : ℕ) → ProducerAt (next_round (ltb g num_gen)) g
  after_test g = elim (dec_lt g num_gen) [
    | yes below ↦ rw (lt→ltb g num_gen below) below
    | no reached ↦ let no_more : ltb g num_gen ≡ false = ground arith in rw no_more (omega arith)
  ]

  after_read_test : (r : ℕ) → r ≤ num_gen → ConsumerAt (next_round (negate (r == num_gen))) r
  after_read_test r le = elim (ℕ_discrete r num_gen) [
    | yes all ↦ let same : (r == num_gen) ≡ true = ground arith in rw same all
    | no some_left ↦ let other : (r == num_gen) ≡ false = ground arith in rw other (omega arith)
  ]

  holds-next_round : (b : Bool) → holds (next_round b) ≡ 0
  holds-next_round true = refl
  holds-next_round false = refl

  same_some : {a b : Shared} → some a ≡ some b → a ≡ b
  same_some e = cc

  run-Produced :
      (rand : ℕ) (contents : ℕ → ℕ) (m t : Shared)
      → IsBuffer m
      → m.num_has_gen + 5 ≤ 2 ^ 31
      → produce_turn rand contents m ≡ some t
      → Produced m t
  run-Produced rand contents m t is ints run =
      let made = produce_turn-Produced rand contents m is ints in
      subst (Produced m) (same_some (sym made.1 ∙ run)) made.2

  run-Consumed :
      (m t : Shared)
      → IsBuffer m
      → m.num_has_read + 1 < 2 ^ 31
      → consume_turn m ≡ some t
      → Consumed m t
  run-Consumed m t is ints run =
      let made = consume_turn-Consumed m is ints in
      subst (Consumed m) (same_some (sym made.1 ∙ run)) made.2

  -- The semaphore moves and the buffer does not.
  with_mutex :
      {m : Shared} {p c p' c' : Pc} (k : ℕ)
      → Inv m p c
      → k + holds p' + holds c' ≡ 1
      → ProducerAt p' m.num_has_gen
      → ConsumerAt c' m.num_has_read
      → Inv (record m { mutex = k }) p' c'
  with_mutex k inv token at_p at_c = record {
    buffer = record { block = inv.buffer.block; fits = inv.buffer.fits; wide = inv.buffer.wide };
    balance = inv.balance;
    owed = inv.owed;
    bounded = inv.bounded;
    reads = inv.reads;
    token = token;
    at_producer = at_p;
    at_consumer = at_c;
  }

  Produce-Inv :
      {m t : Shared} {p p' c : Pc}
      → num_gen + 8 < 2 ^ 31
      → Inv m p c
      → Produce m p t p'
      → Inv t p' c
  Produce-Inv {m} {c} ints inv test =
      let goes_on = ap (ltb_ℤ (pos 0)) inv.owed ∙ owes m.num_has_gen in
      with_mutex m.mutex inv
        (omega (arith, inv.token, holds-next_round (ltb_ℤ (pos 0) m.total_gen_num)))
        (rw goes_on (after_test m.num_has_gen)) inv.at_consumer
  Produce-Inv {m} {c} ints inv (lock free) =
      with_mutex (m.mutex - 1) inv (omega (arith, inv.token, free)) inv.at_producer inv.at_consumer
  Produce-Inv {m} {t} {c} ints inv (turn rand contents run) =
      let f = run-Produced rand contents m t inv.buffer (omega (arith, inv.bounded, ints)) run in
      record {
        buffer = f.buffer;
        balance = omega (arith, inv.balance, f.counted, f.grown, f.num_has_read);
        owed =
            f.total_gen_num
            ∙ ap (λ z. z -ℤ pos f.n) inv.owed
            ∙ sub-sub m.num_has_gen f.n
            ∙ ap (sub_ℕ num_gen) (sym f.counted);
        bounded = omega (arith, f.counted, f.few, inv.at_producer);
        reads = omega (arith, f.num_has_read, inv.reads);
        token = omega (arith, f.mutex, inv.token);
        at_producer = tt;
        at_consumer = subst (ConsumerAt c) (sym f.num_has_read) inv.at_consumer;
      }
  Produce-Inv {m} {c} ints inv post =
      with_mutex (m.mutex + 1) inv (omega (arith, inv.token)) tt inv.at_consumer

  Consume-Inv :
      {m t : Shared} {p c c' : Pc}
      → num_gen + 8 < 2 ^ 31
      → Inv m p c
      → Consume num_gen m c t c'
      → Inv t p c'
  Consume-Inv {m} {p} ints inv read_test =
      with_mutex m.mutex inv
        (omega (arith, inv.token, holds-next_round (negate (m.num_has_read == num_gen))))
        inv.at_producer (after_read_test m.num_has_read inv.reads)
  Consume-Inv {m} {p} ints inv (read_lock free) =
      with_mutex (m.mutex - 1) inv (omega (arith, inv.token, free)) inv.at_producer inv.at_consumer
  Consume-Inv {m} {t} {p} ints inv (read_turn run) =
      let f = run-Consumed m t inv.buffer (omega (arith, inv.reads, ints)) run in
      record {
        buffer = f.buffer;
        balance = omega (arith, inv.balance, f.counted, f.shrunk, f.num_has_gen);
        owed = f.total_gen_num ∙ inv.owed ∙ ap (sub_ℕ num_gen) (sym f.num_has_gen);
        bounded = omega (arith, f.num_has_gen, inv.bounded);
        reads = omega (arith, f.counted, f.one, inv.at_consumer);
        token = omega (arith, f.mutex, inv.token);
        at_producer = subst (ProducerAt p) (sym f.num_has_gen) inv.at_producer;
        at_consumer = tt;
      }
  Consume-Inv {m} {p} ints inv read_post =
      with_mutex (m.mutex + 1) inv (omega (arith, inv.token)) inv.at_producer tt

  all_owed : pos num_gen ≡ sub_ℕ num_gen 0
  all_owed = ground arith

  pub Reach-Inv :
      {buffer_capacity : ℕ} {cells : List ℕ} {s : System}
      → IsAllocated num_gen buffer_capacity cells
      → Reach num_gen buffer_capacity cells s
      → Inv s.mem s.producer s.consumer
  unfolding start_state
  Reach-Inv is start = record {
    buffer = record { block = is.block; fits = omega arith; wide = is.wide };
    balance = refl;
    owed = all_owed;
    bounded = omega arith;
    reads = omega arith;
    token = refl;
    at_producer = tt;
    at_consumer = tt;
  }
  Reach-Inv is (later r (by_producer mv)) = Produce-Inv is.ints (Reach-Inv is r) mv
  Reach-Inv is (later r (by_consumer mv)) = Consume-Inv is.ints (Reach-Inv is r) mv
