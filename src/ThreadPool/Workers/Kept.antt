-- ===== src/ThreadPool/Workers/Kept.antt =====
-- What a step of one worker leaves as it was: the jobs that others own, and the wake-ups.
use mathlib.Core.Logic.{if_pos, if_neg}
use c_playground.Prelude.{
  ℕ, ◌≤◌, ◌<◌, ◌≡◌, ◌≢◌, sym, subst, ◌∙◌, true, Option, none, some, List, arith, update, total, ◌⊎◌,
  inl, inr, ℕ_discrete,
}
use c_playground.ThreadPool.Store.{Job, World}
use c_playground.ThreadPool.Chain.{Entry}
use c_playground.ThreadPool.Queue.Laws.{IsQueue}
use c_playground.ThreadPool.Workers.{
  Pc, Client, spinning, idle, test_len, test_working, asleep, signalled, unlocking, returned,
  checking, posting, cleaning, destroyed, Pool, Setup, signal,
}
use c_playground.ThreadPool.Workers.Defs.{registered, eager, owned, Held, QueueAt, Inv}
use c_playground.ThreadPool.Workers.Moves.{Mover}
use c_playground.ThreadPool.Workers.Owned.{QueueAt-live}

module _ {c : Setup} {m : Pool} {pc : ℕ → Pc} (inv : Inv c m pc) (i : ℕ) where
  abbrev n : ℕ
  n = c.workers

  -- What worker `i` at `p` owns, and nobody else.
  pub record Owner (p : Pc) : Type 0 where
    pub holds : Held m.queue.cells inv.es (owned p)
    pub alone : (a j : ℕ) → owned p ≡ some a → i ≢ j → owned (pc j) ≡ some a → ⊥

  pub owner : Owner (pc i)
  owner = record {
    holds = inv.held i;
    alone = λ a j mine other theirs. other (inv.apart i j a mine theirs);
  }

  pub record Jobs (m' : Pool) (p' : Pc) : Type 0 where
    pub es : List Entry
    pub queue : QueueAt m'.client es m'.queue
    pub held : (j : ℕ) → Held m'.queue.cells es (owned (update pc i p' j))
    pub apart :
        (j k a : ℕ) → owned (update pc i p' j) ≡ some a → owned (update pc i p' k) ≡ some a → j ≡ k
    pub awake :
        m'.threads_keepalive ≡ true
        → 0 < m'.queue.len
        → (m'.queue.bsem ≡ some 1) ⊎ (0 < total eager n (update pc i p'))

  pub held-kept :
      (cells : ℕ → Option Job) (es : List Entry) (p' : Pc)
      → Held cells es (owned p')
      → ((j : ℕ) → i ≢ j → Held cells es (owned (pc j)))
      → (j : ℕ) → Held cells es (owned (update pc i p' j))
  held-kept cells es p' mine others j = elim (ℕ_discrete i j) [
    | yes e ↦ rw (if_pos _ e) mine
    | no ne ↦ rw (if_neg _ ne) (others j ne)
  ]

  pub apart-kept :
      (p' : Pc)
      → ((a j : ℕ) → owned p' ≡ some a → i ≢ j → owned (pc j) ≡ some a → ⊥)
      → (j k a : ℕ) → owned (update pc i p' j) ≡ some a
      → owned (update pc i p' k) ≡ some a
      → j ≡ k
  apart-kept p' alone j k a oj ok' = elim (ℕ_discrete i j) [
    | yes e ↦ elim (ℕ_discrete i k) [
      | yes e' ↦ sym e ∙ e'
      | no ne ↦ absurd (alone a k (rw (if_pos _ e) at oj) ne (rw (if_neg _ ne) at ok'))
    ]
    | no ne ↦ elim (ℕ_discrete i k) [
      | yes e' ↦ absurd (alone a j (rw (if_pos _ e') at ok') ne (rw (if_neg _ ne) at oj))
      | no ne' ↦ inv.apart j k a (rw (if_neg _ ne) at oj) (rw (if_neg _ ne') at ok')
    ]
  ]

  pub QueueAt-signal :
      (c' : Client) (es : List Entry) (q : World) → QueueAt c' es q → QueueAt (signal c') es q
  QueueAt-signal asleep es q is = is
  QueueAt-signal destroyed es q is = is
  QueueAt-signal spinning es q is = is
  QueueAt-signal idle es q is = is
  QueueAt-signal test_len es q is = is
  QueueAt-signal signalled es q is = is
  QueueAt-signal test_working es q is = is
  QueueAt-signal unlocking es q is = is
  QueueAt-signal returned es q is = is
  QueueAt-signal checking es q is = is
  QueueAt-signal posting es q is = is
  QueueAt-signal cleaning es q is = is

  abbrev pub Awake : Pool → Pc → Type 0
  Awake m' p' =
      m'.threads_keepalive ≡ true
      → 0 < m'.queue.len
      → (m'.queue.bsem ≡ some 1) ⊎ (0 < total eager n (update pc i p'))

  -- A step that leaves the heap alone and takes no job.
  pub same_heap :
      {p p' : Pc} (m' : Pool)
      → Owner p
      → m'.queue.cells ≡ m.queue.cells
      → QueueAt m'.client inv.es m'.queue
      → (owned p' ≡ none) ⊎ (owned p' ≡ owned p)
      → Awake m' p'
      → Jobs m' p'
  same_heap {p} {p'} m' o same at mine awake = record {
    es = inv.es;
    queue = at;
    held = λ j.
        subst (λ cells. Held cells inv.es (owned (update pc i p' j))) (sym same)
          (held-kept m.queue.cells inv.es p' (own mine) (λ k ne. inv.held k) j);
    apart = apart-kept p' (alone mine);
    awake = awake;
  }
    where
      own : (owned p' ≡ none) ⊎ (owned p' ≡ owned p) → Held m.queue.cells inv.es (owned p')
      own (inl e) = rw e tt
      own (inr e) = rw e o.holds

      alone :
          (owned p' ≡ none) ⊎ (owned p' ≡ owned p)
          → (a j : ℕ) → owned p' ≡ some a
          → i ≢ j
          → owned (pc j) ≡ some a
          → ⊥
      alone (inl e) a j mine = absurd (cc)
      alone (inr e) a j mine = o.alone a j (sym e ∙ mine)

  -- Nothing of the queue changes, and no eager worker gives up.
  pub awake-kept :
      {p p' : Pc}
      → Mover inv i p p'
      → eager p ≤ eager p'
      → m.threads_keepalive ≡ true
      → 0 < m.queue.len
      → (m.queue.bsem ≡ some 1) ⊎ (0 < total eager n (update pc i p'))
  awake-kept f le on some_len = elim (inv.awake on some_len) [
    | inl e ↦ inl e
    | inr e ↦ inr (omega (arith, e, f.eager_count, le))
  ]

  pub live : 0 < m.num_threads_alive → IsQueue inv.es m.queue
  live some_alive = QueueAt-live m.client inv.es m.queue _ _ _ _ _ _ inv.at some_alive inv.queue

  pub alive_of : {p p' : Pc} → Mover inv i p p' → 1 ≤ registered p → 0 < m.num_threads_alive
  alive_of f reg = omega (arith, inv.alive, f.own_alive, reg)
