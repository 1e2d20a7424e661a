-- ===== src/Turns/Bodies.antt =====
-- What one turn of the producer or the consumer of producer_consumer.c does to the buffer.
use c_playground.Prelude.{
  ℕ, zero, suc, ◌+◌, ◌-◌, ◌%◌, ◌^◌, ◌≤◌, ◌<◌, ◌≡◌, refl, ap, ◌∙◌, true, false, some, arith, ltb,
  ◌==◌, length, get_elem?-some, set, length-set, lt→ltb, dec_lt, ℕ_discrete,
}
use c_playground.Machine.{ℤ, pos, negsuc, ◌-ℤ◌}
use c_playground.Turns.{
  Shared, fill, count_generated, produce_turn, read_last, consume_turn, room, min,
}

-- The buffer's shape: the block is as long as the capacity says, and the numbers fit.
pub record IsBuffer (s : Shared) : Type 0 where
  pub block : length s.items ≡ s.capacity
  pub fits : s.size ≤ s.capacity
  pub wide : s.capacity < 2 ^ 60

pub record Filled (n : ℕ) (s t : Shared) : Type 0 where
  pub buffer : IsBuffer t
  pub grown : t.size ≡ s.size + n
  pub capacity : t.capacity ≡ s.capacity
  pub num_has_gen : t.num_has_gen ≡ s.num_has_gen
  pub num_has_read : t.num_has_read ≡ s.num_has_read
  pub total_gen_num : t.total_gen_num ≡ s.total_gen_num
  pub mutex : t.mutex ≡ s.mutex

fill-Filled :
    (n : ℕ) (contents : ℕ → ℕ) (s : Shared)
    → IsBuffer s
    → s.size + n ≤ s.capacity
    → (t : Shared) × (fill n contents s ≡ some t) × Filled n s t
unfolding fill
fill-Filled zero contents s is fits = (
  s,
  refl,
  record {
    buffer = is;
    grown = omega arith;
    capacity = refl;
    num_has_gen = refl;
    num_has_read = refl;
    total_gen_num = refl;
    mutex = refl;
  },
)
fill-Filled (suc n) contents s is fits =
    let next : Shared = record s {
      items = set s.items s.size (contents 0 % 10 % 10);
      size = (s.size + 1) % 2 ^ 64;
    } in
    let stepped : next.size ≡ s.size + 1 = omega (arith, is.fits, is.wide, fits) in
    let is' : IsBuffer next = record {
      block = length-set s.items s.size (contents 0 % 10 % 10) ∙ is.block;
      fits = omega (arith, stepped, fits);
      wide = is.wide;
    } in
    let rest = fill-Filled n (λ i. contents (i + 1)) next is' (omega (arith, stepped, fits)) in
    let inside : ltb s.size (length s.items) ≡ true = lt→ltb _ _ (omega (arith, is.block, fits)) in
    (
      rest.0,
      rw inside rest.1,
      record {
        buffer = rest.2.buffer;
        grown = omega (arith, rest.2.grown, stepped);
        capacity = rest.2.capacity;
        num_has_gen = rest.2.num_has_gen;
        num_has_read = rest.2.num_has_read;
        total_gen_num = rest.2.total_gen_num;
        mutex = rest.2.mutex;
      },
    )

-- Some numbers, fewer than five, go in and are counted.
pub record Produced (s t : Shared) : Type 0 where
  pub n : ℕ
  pub few : n < 5
  pub buffer : IsBuffer t
  pub grown : t.size ≡ s.size + n
  pub capacity : t.capacity ≡ s.capacity
  pub counted : t.num_has_gen ≡ s.num_has_gen + n
  pub num_has_read : t.num_has_read ≡ s.num_has_read
  pub total_gen_num : t.total_gen_num ≡ s.total_gen_num -ℤ pos n
  pub mutex : t.mutex ≡ s.mutex

sub_zero : (x : ℤ) → x ≡ x -ℤ pos 0
sub_zero (pos a) = ground arith
sub_zero (negsuc a) = ground arith

nothing-Produced : (s : Shared) → IsBuffer s → Produced s s
nothing-Produced s is = record {
  n = 0;
  few = omega arith;
  buffer = is;
  grown = omega arith;
  capacity = refl;
  counted = omega arith;
  num_has_read = refl;
  total_gen_num = sub_zero s.total_gen_num;
  mutex = refl;
}

room-left : (s : Shared) → IsBuffer s → s.size + room s ≡ s.capacity
room-left s is = omega (arith, is.fits, is.wide)

min-le : (x y : ℕ) → (min x y ≤ x) × (min x y ≤ y)
min-le x y = ground arith

Filled-Produced :
    (n : ℕ) (s t : Shared)
    → n < 5
    → Filled n s t
    → Produced s
        (record t { total_gen_num = t.total_gen_num -ℤ pos n; num_has_gen = t.num_has_gen + n })
Filled-Produced n s t few f = record {
  n = n;
  few = few;
  buffer = record { block = f.buffer.block; fits = f.buffer.fits; wide = f.buffer.wide };
  grown = f.grown;
  capacity = f.capacity;
  counted = ap (λ g. g + n) f.num_has_gen;
  num_has_read = f.num_has_read;
  total_gen_num = ap (λ z. z -ℤ pos n) f.total_gen_num;
  mutex = f.mutex;
}

-- The producer's turn stays inside `data`, for whatever `rand` returns.
pub produce_turn-Produced :
    (rand : ℕ) (contents : ℕ → ℕ) (s : Shared)
    → IsBuffer s
    → s.num_has_gen + 5 ≤ 2 ^ 31
    → (t : Shared) × (produce_turn rand contents s ≡ some t) × Produced s t
unfolding produce_turn count_generated
produce_turn-Produced rand contents s is ints =
    let k = min (rand % 5) (room s) in
    elim (dec_lt 0 (room s)) [
      | no full ↦
          let test : ltb 0 (room s) ≡ false = ground arith in
          (s, rw test refl, nothing-Produced s is)
      | yes free ↦ elim (ℕ_discrete k 0) [
        | yes z ↦
            let test : (k == 0) ≡ true = ground arith in
            (s, rw (lt→ltb 0 (room s) free, test) refl, nothing-Produced s is)
        | no some_n ↦
            let test : (k == 0) ≡ false = ground arith in
            let few : k < 5 = omega (arith, (min-le (rand % 5) (room s)).0) in
            let f =
              fill-Filled k contents s is
                (omega (arith, room-left s is, (min-le (rand % 5) (room s)).1)) in
            let small : ltb (f.0.num_has_gen + k) (2 ^ 31) ≡ true =
              lt→ltb _ _ (omega (arith, f.2.num_has_gen, few, ints)) in
            (
              record f.0 {
                total_gen_num = f.0.total_gen_num -ℤ pos k;
                num_has_gen = f.0.num_has_gen + k;
              },
              rw (lt→ltb 0 (room s) free, test, f.1, small) refl,
              Filled-Produced k s f.0 few f.2,
            )
      ]
    ]

-- One number goes out and is counted, or the buffer is empty.
pub record Consumed (s t : Shared) : Type 0 where
  pub n : ℕ
  pub one : n ≤ 1
  pub buffer : IsBuffer t
  pub shrunk : s.size ≡ t.size + n
  pub capacity : t.capacity ≡ s.capacity
  pub num_has_gen : t.num_has_gen ≡ s.num_has_gen
  pub counted : t.num_has_read ≡ s.num_has_read + n
  pub total_gen_num : t.total_gen_num ≡ s.total_gen_num
  pub mutex : t.mutex ≡ s.mutex

-- The consumer's turn stays inside `data`.
pub consume_turn-Consumed :
    (s : Shared)
    → IsBuffer s
    → s.num_has_read + 1 < 2 ^ 31
    → (t : Shared) × (consume_turn s ≡ some t) × Consumed s t
unfolding consume_turn read_last
consume_turn-Consumed s is ints = elim (dec_lt 0 s.size) [
  | no empty ↦
      let test : ltb 0 s.size ≡ false = ground arith in
      (
        s,
        rw test refl,
        record {
          n = 0;
          one = omega arith;
          buffer = is;
          shrunk = omega arith;
          capacity = refl;
          num_has_gen = refl;
          counted = omega arith;
          total_gen_num = refl;
          mutex = refl;
        },
      )
  | yes stored ↦
      let cell = get_elem?-some s.items (s.size - 1) (omega (arith, is.block, is.fits)) in
      (
        record s { size = s.size - 1; num_has_read = s.num_has_read + 1 },
        rw (lt→ltb 0 s.size stored, cell.1, lt→ltb (s.num_has_read + 1) (2 ^ 31) ints) refl,
        record {
          n = 1;
          one = omega arith;
          buffer = record { block = is.block; fits = omega (arith, is.fits); wide = is.wide };
          shrunk = omega arith;
          capacity = refl;
          num_has_gen = refl;
          counted = refl;
          total_gen_num = refl;
          mutex = refl;
        },
      )
]
