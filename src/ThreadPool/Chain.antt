-- ===== src/ThreadPool/Chain.antt =====
-- The chain of jobs from `front` to `rear` through `prev`.
use c_playground.Prelude.{
  ℕ, ◌≡◌, ◌≢◌, refl, sym, ap, ◌∙◌, subst, Option, none, some, List, [], ◌∷◌, ◌++◌, update,
  update-same, update-other,
}
use c_playground.ThreadPool.Store.{Task, Job}

-- A waiting job: its address and its task.
abbrev pub Entry : Type 0
Entry = ℕ × Task

-- No waiting job lies at the address `a`.
abbrev pub Off : ℕ → List Entry → Type 0
Off a [] = Unit
Off a (e ∷ es) = (a ≢ e.0) × Off a es

abbrev pub job : Option ℕ → Task → Job
job prev task = record { prev = prev; task = task }

-- From `front` along `prev` to `rear`, where the chain ends with NULL, lie exactly the listed jobs.
abbrev pub Linked : (ℕ → Option Job) → (front rear : Option ℕ) → List Entry → Type 0
Linked cells front rear [] = (front ≡ none) × (rear ≡ none)
Linked cells front rear ((a, t) ∷ []) =
    (front ≡ some a) × (cells a ≡ some (job none t)) × (rear ≡ some a)
Linked cells front rear ((a, t) ∷ (b, u) ∷ es) =
    (front ≡ some a)
    × (cells a ≡ some (job (some b) t))
    × Off a ((b, u) ∷ es)
    × Linked cells (some b) rear ((b, u) ∷ es)

flip : {a b : ℕ} → a ≢ b → b ≢ a
flip ne e = ne (sym e)

some-injective : (a b : ℕ) → some a ≡ some b → a ≡ b
some-injective a b e = cc

-- An unallocated address is off every chain.
pub free-Off :
    (cells : ℕ → Option Job) (a : ℕ) (front rear : Option ℕ) (es : List Entry)
    → cells a ≡ none
    → Linked cells front rear es
    → Off a es
free-Off cells a front rear [] e l = tt
free-Off cells a front rear ((x, t) ∷ []) e (_, here, _) = (λ same. cc, tt)
free-Off cells a front rear ((x, t) ∷ (b, u) ∷ es) e (_, here, _, more) =
    (λ same. cc, free-Off cells a (some b) rear ((b, u) ∷ es) e more)

-- A write elsewhere leaves the chain.
pub Linked-update :
    (cells : ℕ → Option Job) (a : ℕ) (new : Option Job) (front rear : Option ℕ) (es : List Entry)
    → Off a es
    → Linked cells front rear es
    → Linked (update cells a new) front rear es
Linked-update cells a new front rear [] off l = l
Linked-update cells a new front rear ((x, t) ∷ []) off (f, here, r) =
    (f, update-other cells a new x (flip off.0) ∙ here, r)
Linked-update cells a new front rear ((x, t) ∷ (b, u) ∷ es) off (f, here, apart, more) = (
  f,
  update-other cells a new x (flip off.0) ∙ here,
  apart,
  Linked-update cells a new (some b) rear ((b, u) ∷ es) off.1 more,
)

-- The last job: where `rear` points, with NULL behind it, at another address than any off the chain.
pub Linked-rear :
    (cells : ℕ → Option Job) (front rear : Option ℕ) (e : Entry) (es : List Entry)
    → Linked cells front rear (e ∷ es)
    → (r : ℕ) × (t : Task) × (rear ≡ some r)
      × (cells r ≡ some (job none t))
      × ((y : ℕ) → Off y (e ∷ es) → y ≢ r)
Linked-rear cells front rear (a, t) [] (_, here, last) = (a, t, last, here, λ y off. off.0)
Linked-rear cells front rear (a, t) ((b, u) ∷ es) (_, _, _, more) =
    let found = Linked-rear cells (some b) rear (b, u) es more in
    (found.0, found.1, found.2, found.3, λ y off. found.4 y off.1)

pub Off-snoc : (a n : ℕ) (t : Task) (es : List Entry) → Off a es → a ≢ n → Off a (es ++ (n, t) ∷ [])
Off-snoc a n t [] off ne = (ne, tt)
Off-snoc a n t (e ∷ es) off ne = (off.0, Off-snoc a n t es off.1 ne)

-- A job with another `prev`.
abbrev relink : ℕ → Option Job → Option Job
relink n none = none
relink n (some old) = some (job (some n) old.task)

-- The write of `jobqueue_push` through `rear` puts the new job behind the chain.
pub Linked-snoc :
    (cells : ℕ → Option Job) (front : Option ℕ) (r n : ℕ) (last t : Task) (e : Entry)
    (es : List Entry)
    → cells r ≡ some (job none last)
    → cells n ≡ some (job none t)
    → Off n (e ∷ es)
    → Linked cells front (some r) (e ∷ es)
    → Linked (update cells r (some (job (some n) last))) front (some n) ((e ∷ es) ++ (n, t) ∷ [])
Linked-snoc cells front r n last t (a, x) [] hr hn off (f, here, rear) =
    let same : r ≡ a = some-injective r a rear in
    (
      f,
      subst (λ v. update cells r (some (job (some n) last)) v ≡ some (job (some n) x)) same
          (update-same cells r (some (job (some n) last))
            ∙ ap (relink n) (sym hr ∙ ap cells same ∙ here)),
      (λ e. off.0 (sym e), tt),
      (refl, update-other cells r _ n (λ e. off.0 (e ∙ same)) ∙ hn, refl),
    )
Linked-snoc cells front r n last t (a, x) ((b, u) ∷ es) hr hn off (f, here, apart, more) =
    let apart_rear = Linked-rear cells (some b) (some r) (b, u) es more in
    (
      f,
      update-other cells r _ a
            (λ e. apart_rear.4 a apart (e ∙ some-injective r apart_rear.0 apart_rear.2))
          ∙ here,
      Off-snoc a n t ((b, u) ∷ es) apart (λ e. off.0 (sym e)),
      Linked-snoc cells (some b) r n last t (b, u) es hr hn off.1 more,
    )

abbrev prev_of : Option Job → Option ℕ
prev_of none = none
prev_of (some old) = old.prev

abbrev task_of : Task → Option Job → Task
task_of t none = t
task_of t (some old) = old.task

same_entry :
    (a b : ℕ) (t u : Task) (p q : Option ℕ) (cells : ℕ → Option Job) (front : Option ℕ)
    → front ≡ some a
    → front ≡ some b
    → cells a ≡ some (job p t)
    → cells b ≡ some (job q u)
    → (◌≡◌ {A = Entry} (a, t) (b, u)) × (p ≡ q)
same_entry a b t u p q cells front fa fb ca cb =
    let ab = some-injective a b (sym fa ∙ fb) in
    let same = sym ca ∙ ap cells ab ∙ cb in let task = ap (task_of t) same in (cc, ap prev_of same)

-- A heap and a front hold one chain only.
pub Linked-unique :
    (cells : ℕ → Option Job) (front rear rear' : Option ℕ) (es es' : List Entry)
    → Linked cells front rear es
    → Linked cells front rear' es'
    → es ≡ es'
Linked-unique cells front rear rear' [] [] l l' = refl
Linked-unique cells front rear rear' [] ((b, u) ∷ []) (f, _) (f', _, _) = absurd (cc)
Linked-unique cells front rear rear' [] ((b, u) ∷ y ∷ es') (f, _) (f', _, _, _) = absurd (cc)
Linked-unique cells front rear rear' ((a, t) ∷ []) [] (f, _, _) (f', _) = absurd (cc)
Linked-unique cells front rear rear' ((a, t) ∷ x ∷ es) [] (f, _, _, _) (f', _) = absurd (cc)
Linked-unique cells front rear rear' ((a, t) ∷ []) ((b, u) ∷ []) (f, h, _) (f', h', _) =
    ap (λ e. e ∷ []) (same_entry a b t u none none cells front f f' h h').0
Linked-unique cells front rear rear' ((a, t) ∷ []) ((b, u) ∷ (d, v) ∷ es') (f, h, _)
      (f', h', _, _) =
    absurd (let e = (same_entry a b t u none (some d) cells front f f' h h').1 in cc)
Linked-unique cells front rear rear' ((a, t) ∷ (d, v) ∷ es) ((b, u) ∷ []) (f, h, _, _) (f', h', _) =
    absurd (let e = (same_entry a b t u (some d) none cells front f f' h h').1 in cc)
Linked-unique cells front rear rear' ((a, t) ∷ (d, v) ∷ es) ((b, u) ∷ (d', v') ∷ es') (f, h, _, l)
      (f', h', _, l') =
    let e = same_entry a b t u (some d) (some d') cells front f f' h h' in
    let rest =
      Linked-unique cells (some d) rear rear' ((d, v) ∷ es) ((d', v') ∷ es') l
        (subst (λ z. Linked cells z rear' ((d', v') ∷ es')) (sym e.1) l') in
    cc (e.0, rest)
