-- ===== src/Turns/Main.antt =====
-- Pthread/producer_consumer.c: `main` behind its options, when its two `malloc` succeed: it creates the
-- producer and the consumer and joins them, while those run that are there.
pub mod Laws
mod Tests
use c_playground.Prelude.{ℕ, ◌≡◌, Bool, true, false, List}
use c_playground.Machine.{ℤ, pos}
use c_playground.Turns.{Shared}
use c_playground.Turns.System.{Pc, exited, Produce, Consume, System, init}

-- Where `main` stands; `ended` with its status.
pub data Main : Type 0 where
  creating_producer creating_consumer joining_consumer joining_producer : Main
  ended : ℤ → Main

-- The threads that are there. With `main` the process ends.
abbrev pub has_producer : Main → Bool
has_producer creating_consumer = true
has_producer joining_consumer = true
has_producer joining_producer = true
has_producer _ = false

abbrev pub has_consumer : Main → Bool
has_consumer joining_consumer = true
has_consumer joining_producer = true
has_consumer _ = false

pub record Process : Type 0 where
  pub main : Main
  pub threads : System

-- `pthread_create` may fail; then `main` returns EXIT_FAILURE.
pub data Step (num_gen : ℕ) (s : Process) : Process → Type 0 where
  create_producer :
      s.main ≡ creating_producer → Step num_gen s (record s { main = creating_consumer })
  no_producer : s.main ≡ creating_producer → Step num_gen s (record s { main = ended (pos 1) })
  create_consumer :
      s.main ≡ creating_consumer → Step num_gen s (record s { main = joining_consumer })
  no_consumer : s.main ≡ creating_consumer → Step num_gen s (record s { main = ended (pos 1) })
  join_consumer :
      s.main ≡ joining_consumer
      → s.threads.consumer ≡ exited
      → Step num_gen s (record s { main = joining_producer })
  join_producer :
      s.main ≡ joining_producer
      → s.threads.producer ≡ exited
      → Step num_gen s (record s { main = ended (pos 0) })
  produce :
      {t : Shared} {p : Pc}
      → has_producer s.main ≡ true
      → Produce s.threads.mem s.threads.producer t p
      → Step num_gen s (record s { threads = record s.threads { mem = t; producer = p } })
  consume :
      {t : Shared} {p : Pc}
      → has_consumer s.main ≡ true
      → Consume num_gen s.threads.mem s.threads.consumer t p
      → Step num_gen s (record s { threads = record s.threads { mem = t; consumer = p } })

pub data Reach (num_gen buffer_capacity : ℕ) (cells : List ℕ) : Process → Type 0 where
  start :
      Reach num_gen buffer_capacity cells
        (record { main = creating_producer; threads = init num_gen buffer_capacity cells })
  later :
      {s t : Process}
      → Reach num_gen buffer_capacity cells s
      → Step num_gen s t
      → Reach num_gen buffer_capacity cells t
