-- ===== src/Turns/Safety.antt =====
-- What holds in every reachable state of producer_consumer.c.
use c_playground.Prelude.{
  ℕ, ◌+◌, ◌-◌, ◌^◌, ◌≤◌, ◌<◌, ◌≡◌, refl, subst, some, List, arith, ◌⊎◌, inl, inr, dec_lt,
}
use c_playground.Turns.{Shared, produce_turn, consume_turn}
use c_playground.Turns.System.{
  Pc, testing, waiting, inside, posting, exited, Produce, test, lock, turn, post, Consume,
  read_test, read_lock, read_turn, read_post, System, Step, by_producer, by_consumer, Reach,
}
use c_playground.Turns.Bodies.{IsBuffer, produce_turn-Produced, consume_turn-Consumed}
use c_playground.Turns.Invariant.{holds, ProducerAt, ConsumerAt, IsAllocated, Reach-Inv}

writer_free :
    (m : Shared) (p : Pc)
    → IsBuffer m
    → m.num_has_gen + 5 ≤ 2 ^ 31
    → 0 < m.mutex
    → (p ≡ exited) ⊎ ((t : Shared) × (p' : Pc) × Produce m p t p')
writer_free m testing is ints free = inr (m, _, test)
writer_free m waiting is ints free = inr (_, inside, lock free)
writer_free m inside is ints free =
    let made = produce_turn-Produced 0 (λ _. 0) m is ints in
    inr (made.0, posting, turn 0 (λ _. 0) made.1)
writer_free m posting is ints free = inr (_, testing, post)
writer_free m exited is ints free = inl refl

reader_free :
    (num_gen : ℕ) (m : Shared) (p : Pc)
    → IsBuffer m
    → m.num_has_read + 1 < 2 ^ 31
    → 0 < m.mutex
    → (p ≡ exited) ⊎ ((t : Shared) × (p' : Pc) × Consume num_gen m p t p')
reader_free num_gen m testing is ints free = inr (m, _, read_test)
reader_free num_gen m waiting is ints free = inr (_, inside, read_lock free)
reader_free num_gen m inside is ints free =
    let made = consume_turn-Consumed m is ints in inr (made.0, posting, read_turn made.1)
reader_free num_gen m posting is ints free = inr (_, testing, read_post)
reader_free num_gen m exited is ints free = inl refl

-- Who holds the mutex can go on.
writer_holding :
    (m : Shared) (p : Pc)
    → IsBuffer m
    → m.num_has_gen + 5 ≤ 2 ^ 31
    → 0 < holds p
    → (t : Shared) × (p' : Pc) × Produce m p t p'
writer_holding m testing is ints h = absurd (omega arith)
writer_holding m waiting is ints h = absurd (omega arith)
writer_holding m inside is ints h =
    let made = produce_turn-Produced 0 (λ _. 0) m is ints in
    (made.0, posting, turn 0 (λ _. 0) made.1)
writer_holding m posting is ints h = (_, testing, post)
writer_holding m exited is ints h = absurd (omega arith)

reader_holding :
    (num_gen : ℕ) (m : Shared) (p : Pc)
    → IsBuffer m
    → m.num_has_read + 1 < 2 ^ 31
    → 0 < holds p
    → (t : Shared) × (p' : Pc) × Consume num_gen m p t p'
reader_holding num_gen m testing is ints h = absurd (omega arith)
reader_holding num_gen m waiting is ints h = absurd (omega arith)
reader_holding num_gen m inside is ints h =
    let made = consume_turn-Consumed m is ints in (made.0, posting, read_turn made.1)
reader_holding num_gen m posting is ints h = (_, testing, read_post)
reader_holding num_gen m exited is ints h = absurd (omega arith)

module _ {num_gen buffer_capacity : ℕ} {cells : List ℕ} {s : System}
    (is : IsAllocated num_gen buffer_capacity cells)
    (r : Reach num_gen buffer_capacity cells s) where
  -- The counters agree with the buffer, at most three numbers too many are generated, none too many
  -- is read, and at most one of the two threads holds the mutex.
  pub agreement :
      (s.mem.num_has_gen ≡ s.mem.num_has_read + s.mem.size)
      × (s.mem.size ≤ s.mem.capacity)
      × (s.mem.num_has_gen ≤ num_gen + 3)
      × (s.mem.num_has_read ≤ num_gen)
      × (s.mem.mutex + holds s.producer + holds s.consumer ≡ 1)
  agreement =
      let inv = Reach-Inv num_gen is r in
      (inv.balance, inv.buffer.fits, inv.bounded, inv.reads, inv.token)

  -- In every reachable state a turn of either thread stays inside `data`, whatever `rand` returns.
  pub turns_in_bounds :
      (rand : ℕ) (contents : ℕ → ℕ)
      → ((t : Shared) × (produce_turn rand contents s.mem ≡ some t))
        × ((t : Shared) × (consume_turn s.mem ≡ some t))
  turns_in_bounds rand contents =
      let inv = Reach-Inv num_gen is r in
      let buffer = inv.buffer in
      let made =
        produce_turn-Produced rand contents s.mem buffer (omega (arith, inv.bounded, is.ints)) in
      let read = consume_turn-Consumed s.mem buffer (omega (arith, inv.reads, is.ints)) in
      ((made.0, made.1), (read.0, read.1))

  -- When `main` has joined both threads, exactly `num_gen` numbers were read, at least as many and at
  -- most three more were generated, and those that were not read are still in the buffer.
  pub joined :
      s.producer ≡ exited
      → s.consumer ≡ exited
      → (s.mem.num_has_read ≡ num_gen)
        × (num_gen ≤ s.mem.num_has_gen)
        × (s.mem.size ≡ s.mem.num_has_gen - num_gen)
        × (s.mem.size ≤ 3)
  joined done_p done_c =
      let inv = Reach-Inv num_gen is r in
      let made = subst (λ p. ProducerAt num_gen p s.mem.num_has_gen) done_p inv.at_producer in
      let read = subst (λ c. ConsumerAt num_gen c s.mem.num_has_read) done_c inv.at_consumer in
      (
        read,
        made,
        omega (arith, inv.balance, read, made),
        omega (arith, inv.balance, inv.bounded, read),
      )

  -- No deadlock: as long as not both threads have exited, one of them can take a step.
  pub never_stuck :
      ((s.producer ≡ exited) × (s.consumer ≡ exited)) ⊎ ((t : System) × Step num_gen s t)
  never_stuck =
      let inv = Reach-Inv num_gen is r in
      elim (dec_lt 0 s.mem.mutex) [
        | yes free ↦
            elim (writer_free s.mem s.producer inv.buffer (omega (arith, inv.bounded, is.ints))
              free) [
                | inr (t, p, mv) ↦ inr (_, by_producer mv)
                | inl out_p ↦
                    elim (reader_free num_gen s.mem s.consumer inv.buffer
                      (omega (arith, inv.reads, is.ints)) free) [
                        | inr (t, p, mv) ↦ inr (_, by_consumer mv)
                        | inl out_c ↦ inl (out_p, out_c)
                      ]
              ]
        | no taken ↦ elim (dec_lt 0 (holds s.producer)) [
          | yes h ↦
              let move =
                writer_holding s.mem s.producer inv.buffer (omega (arith, inv.bounded, is.ints))
                  h in
              inr (_, by_producer move.2)
          | no h ↦
              let other : 0 < holds s.consumer = omega (arith, inv.token, taken, h) in
              let move =
                reader_holding num_gen s.mem s.consumer inv.buffer
                  (omega (arith, inv.reads, is.ints)) other in
              inr (_, by_consumer move.2)
        ]
      ]
