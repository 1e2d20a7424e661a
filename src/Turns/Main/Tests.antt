-- ===== src/Turns/Main/Tests.antt =====
-- Runs of `main` of producer_consumer.c with one number to generate and room for two.
use c_playground.Prelude.{ℕ, ◌-◌, ◌≤◌, ◌≡◌, refl, List, [], ◌∷◌, arith, ◌⊎◌}
use c_playground.Machine.{ℤ, pos}
use c_playground.Turns.{start_state, fill, count_generated, produce_turn, read_last, consume_turn}
use c_playground.Turns.System.{test, lock, turn, post, read_test, read_lock, read_turn, read_post}
use c_playground.Turns.Invariant.{IsAllocated}
use c_playground.Turns.Main.{
  ended, Process, Step, create_producer, create_consumer, no_consumer, join_consumer, join_producer,
  produce, consume, Reach, start, later,
}
use c_playground.Turns.Main.Laws.{main_ends, main_goes_on}

abbrev block : List ℕ
block = 9 ∷ 9 ∷ []

block-IsAllocated : IsAllocated 1 2 block
block-IsAllocated = record { block = refl; wide = omega arith; ints = omega arith }

record Run : Type 0 where
  last : Process
  reach : Reach 1 2 block last

next : (r : Run) {s : Process} → Step 1 r.last s → Run
next r step = record { last = _; reach = later r.reach step }

-- The producer stores its number before the consumer is there.
early : Run
unfolding next start_state produce_turn fill count_generated
early =
    next
      (next
        (next (next (record { last = _; reach = start }) (create_producer refl))
          (produce refl test))
        (produce refl (lock (omega arith))))
      (produce refl (turn 1 (λ _. 7) refl))

-- There is no consumer.
alone : Run
unfolding early
alone = next early (no_consumer refl)

finished : Run
unfolding early consume_turn read_last
finished =
    next
      (next
        (next
          (next
            (next
              (next
                (next
                  (next (next (next early (create_consumer refl)) (produce refl post))
                    (produce refl test))
                  (consume refl read_test))
                (consume refl (read_lock (omega arith))))
              (consume refl (read_turn refl)))
            (consume refl read_post))
          (consume refl read_test))
        (join_consumer refl refl))
      (join_producer refl refl)

failed_status : alone.last.main ≡ ended (pos 1)
unfolding alone
failed_status = refl

finished_status : finished.last.main ≡ ended (pos 0)
unfolding finished
finished_status = refl

main_ends_example :
    ((pos 0 ≡ pos 0)
      × (finished.last.threads.mem.num_has_read ≡ 1)
      × (1 ≤ finished.last.threads.mem.num_has_gen)
      × (finished.last.threads.mem.size ≡ finished.last.threads.mem.num_has_gen - 1)
      × (finished.last.threads.mem.size ≤ 3))
    ⊎ ((pos 0 ≡ pos 1) × (finished.last.threads.mem.num_has_read ≡ 0))
main_ends_example = main_ends block-IsAllocated finished.reach finished_status

main_goes_on_example :
    ((status : ℤ) × (early.last.main ≡ ended status)) ⊎ ((t : Process) × Step 1 early.last t)
main_goes_on_example = main_goes_on block-IsAllocated early.reach
