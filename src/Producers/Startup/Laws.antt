-- ===== src/Producers/Startup/Laws.antt =====
-- When `main` of multiple_producer_consumer.c gets to its waiting loop, and what it leaves when it
-- does not.
use c_playground.Prelude.{
  ℕ, zero, suc, ◌+◌, ◌^◌, ◌<◌, ◌≤◌, ◌≡◌, refl, sym, ap, subst, ◌∙◌, Bool, true, false, Option, none,
  some, List, [], ◌∷◌, arith, length, Bool-cases, inl, inr,
}
use c_playground.Machine.{ℤ, pos, negsuc, fits_int}
use c_playground.Getopt.{Text, Library}
use c_playground.Producers.{Buffer, buffer_create}
use c_playground.Producers.System.{Setup, System, Reach, returned}
use c_playground.Producers.Invariant.{IsCreated}
use c_playground.Producers.Safety.{main_returns_done}
use c_playground.Producers.Startup.{
  Calls, create_from, threads_create, Grants, Main, waits, start_threads, with_buffer, accept,
  with_log, run_main,
}

-- A full array of threads means that every thread runs.
create_from_full :
    (calls : ℕ → Calls) (i left : ℕ)
    → (create_from calls i left).returned ≡ true
    → (create_from calls i left).running ≡ i + left
create_from_full calls i zero e = omega arith
create_from_full calls i (suc left) e =
    let rest = create_from_full calls (suc i) left in ground (arith, rest, e)

create_from_bound : (calls : ℕ → Calls) (i left : ℕ) → (create_from calls i left).running ≤ i + left
create_from_bound calls i zero = omega arith
create_from_bound calls i (suc left) =
    let rest = create_from_bound calls (suc i) left in ground (arith, rest)

threads_full :
    (calloc : Bool) (calls : ℕ → Calls) (n : ℕ)
    → (threads_create calloc calls n).returned ≡ true
    → (threads_create calloc calls n).running ≡ n
threads_full true calls n e = omega (arith, create_from_full calls 0 n e)
threads_full false calls n e = absurd (cc)

-- What `main` has made when it waits: the threads that were asked for, all of them running, and a
-- fresh buffer.
pub record IsStarted (g : Grants) (p q k n : ℤ) (c : Setup) (b : Buffer) : Type 0 where
  pub producers : p ≡ pos c.producers
  pub consumers : q ≡ pos c.consumers
  pub capacity : k ≡ pos c.capacity
  pub limit : n ≡ pos c.max_generate
  pub some_producer : 0 < c.producers
  pub some_consumer : 0 < c.consumers
  pub producers_run :
      (threads_create g.producers g.producer_calls c.producers).running ≡ c.producers
  pub consumers_run :
      (threads_create g.consumers g.consumer_calls c.consumers).running ≡ c.consumers
  pub created : IsCreated c b

start_threads-waits :
    (g : Grants) (c c' : Setup) (b b' : Buffer)
    → start_threads g c b ≡ waits c' b'
    → ((threads_create g.producers g.producer_calls c.producers).returned ≡ true)
      × ((threads_create g.consumers g.consumer_calls c.consumers).returned ≡ true)
      × (c ≡ c')
      × (b ≡ b')
unfolding start_threads
start_threads-waits g c c' b b' e =
    elim (Bool-cases (threads_create g.producers g.producer_calls c.producers).returned) [
      | inr off ↦ absurd (ground (arith, off, e))
      | inl on ↦
          elim (Bool-cases (threads_create g.consumers g.consumer_calls c.consumers).returned) [
            | inr off ↦ absurd (ground (arith, on, off, e))
            | inl on' ↦
                let same : waits c b ≡ waits c' b' = ground (arith, on, on', e) in (on, on', cc, cc)
          ]
    ]

-- The blocks that `buffer_create` needs were granted.
with_buffer-waits :
    (g : Grants) (c c' : Setup) (b' : Buffer) (handle : Bool) (memory : Option (List ℕ))
    → with_buffer g c (buffer_create handle memory c.capacity) ≡ waits c' b'
    → (cells : List ℕ) × (memory ≡ some cells)
      × (b : Buffer) × (buffer_create true (some cells) c.capacity ≡ some b)
      × (start_threads g c b ≡ waits c' b')
unfolding with_buffer buffer_create
with_buffer-waits g c c' b' true (some cells) e = (cells, refl, _, refl, e)
with_buffer-waits g c c' b' true none e = absurd (cc)
with_buffer-waits g c c' b' false memory e = absurd (cc)

module _ (g : Grants) (c : Setup) (b : Buffer) where
  accept-IsStarted :
      (p q k n : ℤ)
      → ((cells : List ℕ) → g.memory ≡ some cells → k ≡ pos (length cells))
      → fits_int k ≡ true
      → fits_int n ≡ true
      → accept g p q k n ≡ waits c b
      → IsStarted g p q k n c b
  unfolding accept
  accept-IsStarted (negsuc p) q k n served int int' e = absurd (cc)
  accept-IsStarted (pos zero) q k n served int int' e = absurd (cc)
  accept-IsStarted (pos (suc p)) (negsuc q) k n served int int' e = absurd (cc)
  accept-IsStarted (pos (suc p)) (pos zero) k n served int int' e = absurd (cc)
  accept-IsStarted (pos (suc p)) (pos (suc q)) (negsuc k) n served int int' e = absurd (cc)
  accept-IsStarted (pos (suc p)) (pos (suc q)) (pos k) (negsuc n) served int int' e = absurd (cc)
  accept-IsStarted (pos (suc p)) (pos (suc q)) (pos k) (pos n) served int int' e =
      let c' : Setup = record {
        producers = suc p;
        consumers = suc q;
        capacity = k;
        max_generate = n;
      } in
      let x = with_buffer-waits g c' c b g.handle g.memory e in
      let y = start_threads-waits g c' c x.2 b x.4 in
      let same : pos k ≡ pos (length x.0) = served x.0 x.1 in
      let room : length x.0 ≡ k = cc in
      let small : k < 2 ^ 31 = ground (arith, int) in
      let limit : n < 2 ^ 31 = ground (arith, int') in
      subst (λ z. IsStarted g (pos (suc p)) (pos (suc q)) (pos k) (pos n) z b) y.2
        (subst (IsStarted g (pos (suc p)) (pos (suc q)) (pos k) (pos n) c') y.3 (record {
          producers = refl;
          consumers = refl;
          capacity = refl;
          limit = refl;
          some_producer = omega arith;
          some_consumer = omega arith;
          producers_run = threads_full g.producers g.producer_calls (suc p) y.0;
          consumers_run = threads_full g.consumers g.consumer_calls (suc q) y.1;
          created = record {
            cells = x.0;
            room = room;
            created = x.3;
            small = small;
            limit = limit;
          };
        }))

-- `atoi` returns an `int`.
abbrev pub IntAtoi : Library → Type 0
IntAtoi lib = (t : Text) → fits_int (lib.atoi t) ≡ true

-- `malloc` gives as many ints as it was asked for.
abbrev pub Served : Grants → ℤ → Type 0
Served g k = (cells : List ℕ) → g.memory ≡ some cells → k ≡ pos (length cells)

with_log-waits :
    (fp : Option ℕ) (m : Main) (c : Setup) (b : Buffer) → with_log fp m ≡ waits c b → m ≡ waits c b
with_log-waits none m c b e = absurd (cc)
with_log-waits (some fp) m c b e = e

module _ (lib : Library) (g : Grants) (program log_fname p q k n : Text) {c : Setup} {b : Buffer}
    (int : IntAtoi lib) (served : Served g (lib.atoi k))
    (run : run_main lib g (program ∷ log_fname ∷ p ∷ q ∷ k ∷ n ∷ []) ≡ waits c b) where
  -- When `atoi` returns ints and `malloc` as many cells as it was asked for: once `main` gets to its
  -- waiting loop, the numbers of the command line were positive for the two kinds of threads and not
  -- negative for the others, all of the threads run, and the buffer is a fresh one of the capacity.
  pub run_main-IsStarted : IsStarted g (lib.atoi p) (lib.atoi q) (lib.atoi k) (lib.atoi n) c b
  unfolding run_main
  run_main-IsStarted =
      accept-IsStarted g c b (lib.atoi p) (lib.atoi q) (lib.atoi k) (lib.atoi n) served (int k)
        (int n) (with_log-waits (lib.fopen log_fname) _ c b run)

  -- When `atoi` returns ints and `malloc` as many cells as it was asked for: when `main` leaves its
  -- waiting loop, in any interleaving with the threads that it has started, as many numbers were
  -- generated and as many consumed as the fifth argument says, and none is stored.
  pub main_exits_done :
      {s : System}
      → Reach c b s
      → (i : ℕ) → s.pc i ≡ returned
      → (lib.atoi n ≡ pos s.mem.num_gen) × (lib.atoi n ≡ pos s.mem.num_con) × (s.mem.size ≡ 0)
  main_exits_done r i at =
      let started = run_main-IsStarted in
      let done = main_returns_done started.created r i at in
      (started.limit ∙ ap pos (sym done.0), started.limit ∙ ap pos (sym done.1), done.2)
