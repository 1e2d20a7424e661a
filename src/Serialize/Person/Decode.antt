-- ===== src/Serialize/Person/Decode.antt =====
-- The readers of serialization_test.c take the bytes of a record and return the record.
use mathlib.Core.List.{append_assoc}
use c_playground.Prelude.{
  ℕ, ◌+◌, ◌<◌, ◌≡◌, refl, ap, sym, ◌∙◌, true, false, Option, none, some, List, [], ◌∷◌, ◌++◌, arith,
  length, take, drop, subst, length-take, take-append-drop,
}
use c_playground.Machine.{
  ℤ, fits_int, pattern32, signed32, bytes_word-word_bytes, signed32-pattern32, pattern32-lt,
}
use c_playground.Serialize.Buffer.{World, Allocator, Table, do_deserialize}
use c_playground.Serialize.Buffer.Layout.{Frame, IsGenerous}
use c_playground.Serialize.Read.{deserialize_data, deserialize_null, deserialize}
use c_playground.Serialize.Stream.{Returns, returns, bind, IsReader}
use c_playground.Serialize.Stream.Reading.{
  deserialize_data-IsReader, deserialize_null-absent, deserialize_null-present,
}
use c_playground.Serialize.Person.{
  Occupation, Person, new_object, read_text, read_int, read_occupation, deserialize_occupation,
  deserialize_person, deserialize_all, person_table,
}
use c_playground.Serialize.Person.Encode.{
  int_bytes, null_bytes, occupation_bytes, person_bytes, all_bytes, IsText, IsOccupation?, IsPerson,
  ArePeople, one_person, other_people,
}

module _ {f : Frame} where
  take_bytes :
      {w : World} (bytes rest : List ℕ) (n : ℕ)
      → length bytes ≡ n
      → 0 < n
      → IsReader f (bytes ++ rest) w
      → Returns (λ got w'. (got ≡ some bytes) × IsReader f rest w') (deserialize_data n w)
  take_bytes {w} bytes rest n len pos_n v =
      subst
        (λ k. Returns (λ got w'. (got ≡ some bytes) × IsReader f rest w') (deserialize_data k w))
        len (deserialize_data-IsReader bytes rest (omega (arith, len)) v)

  read_text-IsReader :
      {w : World} (bytes rest : List ℕ)
      → IsText bytes
      → IsReader f (bytes ++ rest) w
      → Returns (λ got w'. (got ≡ bytes) × IsReader f rest w') (read_text w)
  unfolding read_text
  read_text-IsReader bytes rest is v =
      bind (take_bytes bytes rest 30 is.full (omega arith) v)
        λ got w' (e, v'). rw e (returns (refl, v'))

  read_int-IsReader :
      {w : World} (x : ℤ) (rest : List ℕ)
      → fits_int x ≡ true
      → IsReader f (int_bytes x ++ rest) w
      → Returns (λ got w'. (got ≡ x) × IsReader f rest w') (read_int w)
  unfolding read_int
  read_int-IsReader x rest small v =
      bind (take_bytes (int_bytes x) rest 4 refl (omega arith) v) λ got w' (e, v'). rw e (
        returns (
          ap signed32 (bytes_word-word_bytes (pattern32 x) (pattern32-lt x))
              ∙ signed32-pattern32 x small,
          v',
        ))

  new_object-IsReader :
      {s : List ℕ} {w : World} (heap : Allocator)
      → IsGenerous heap
      → IsReader f s w
      → Returns (λ _ w'. IsReader f s w') (new_object heap w)
  unfolding new_object
  new_object-IsReader {w} heap gen v = rw (gen w.calls) (
      returns (record {
        calls = v.calls + 1;
        before = v.before;
        tail = v.tail;
        state = rw v.state;
        extent = v.extent;
      }))

  -- A text ahead is not taken for the sentinel.
  not_absent :
      {w : World} (heap : Allocator) (text rest : List ℕ)
      → IsText text
      → IsReader f (text ++ rest) w
      → Returns
          (λ absent w'. (absent ≡ false) × IsReader f (text ++ rest) w')
          (deserialize_null heap w)
  not_absent {w} heap text rest is v =
      subst
        (λ t. Returns (λ absent w'. (absent ≡ false) × IsReader f t w') (deserialize_null heap w))
        whole
        (deserialize_null-present heap (take 4 text) (drop 4 text ++ rest)
          (omega (arith, length-take 4 text, is.full)) is.marked
          (subst (λ t. IsReader f t w) (sym whole) v))
    where
      whole : take 4 text ++ (drop 4 text ++ rest) ≡ text ++ rest
      whole =
          sym (append_assoc (take 4 text) (drop 4 text) rest)
          ∙ ap (λ t. t ++ rest) (take-append-drop 4 text)

-- The bytes of a person behind the name, with what follows.
abbrev body : Person → List ℕ → List ℕ
body p rest = int_bytes p.age ++ (occupation_bytes p.occ ++ (int_bytes p.weight ++ rest))

regroup : (p : Person) (rest : List ℕ) → person_bytes (some p) ++ rest ≡ p.name ++ body p rest
unfolding person_bytes
regroup p rest = rw (
  append_assoc p.name (int_bytes p.age ++ (occupation_bytes p.occ ++ int_bytes p.weight)) rest,
  append_assoc (occupation_bytes p.occ) (int_bytes p.weight) rest,
)

module _ (heap : Allocator) (gen : IsGenerous heap) {f : Frame} where
  deserialize_occupation-IsReader :
      {w : World} (o : Option Occupation) (rest : List ℕ)
      → IsOccupation? o
      → IsReader f (occupation_bytes o ++ rest) w
      → Returns (λ got w'. (got ≡ o) × IsReader f rest w') (deserialize_occupation heap w)
  unfolding deserialize_occupation read_occupation occupation_bytes
  deserialize_occupation-IsReader none rest is v =
      bind (deserialize_null-absent heap null_bytes rest refl refl v)
        λ absent w' (e, v'). rw e (returns (refl, v'))
  deserialize_occupation-IsReader {w} (some o) rest is v =
      bind
        (not_absent heap o.dept_name (int_bytes o.employee_code ++ rest) is.dept_name (
          subst (λ t. IsReader f t w) (append_assoc o.dept_name (int_bytes o.employee_code) rest)
            v))
        λ absent w1 (e, v1). rw e (
          bind (new_object-IsReader heap gen v1) λ _ w2 v2.
            bind (read_text-IsReader o.dept_name _ is.dept_name v2) λ dept w3 (d, v3).
              bind (read_int-IsReader o.employee_code rest is.employee_code v3)
                λ code w4 (c, v4). returns (rw (d, c), v4))

  deserialize_person-IsReader :
      {w : World} (p : Person) (rest : List ℕ)
      → IsPerson p
      → IsReader f (person_bytes (some p) ++ rest) w
      → Returns (λ got w'. (got ≡ some p) × IsReader f rest w') (deserialize_person heap w)
  unfolding deserialize_person person_bytes
  deserialize_person-IsReader {w} p rest is v =
      bind (new_object-IsReader heap gen (subst (λ t. IsReader f t w) (regroup p rest) v))
        λ _ w1 v1. bind (read_text-IsReader p.name _ is.name v1) λ name w2 (e2, v2).
          bind (read_int-IsReader p.age _ is.age v2) λ age w3 (e3, v3).
            bind (deserialize_occupation-IsReader p.occ _ is.occ v3) λ occ w4 (e4, v4).
              bind (read_int-IsReader p.weight rest is.weight v4)
                λ weight w5 (e5, v5). returns (rw (e2, e3, e4, e5), v5)

  do_deserialize-calls :
      {V : Type 0} (table : Table V) (j : ℕ) {s : List ℕ} {w : World}
      → f.dser_func ≡ some j
      → IsReader f s w
      → do_deserialize table w ≡ table.dser j w
  unfolding do_deserialize
  do_deserialize-calls table j fe v = rw v.state (rw fe refl)

  deserialize-IsReader :
      {w : World} (j : ℕ) (p : Option Person) (rest : List ℕ)
      → f.dser_func ≡ some j
      → ArePeople (p ∷ [])
      → IsReader f (person_bytes p ++ rest) w
      → Returns (λ got w'. (got ≡ p) × IsReader f rest w') (deserialize heap (person_table heap) w)
  unfolding deserialize person_bytes
  deserialize-IsReader j none rest fe is v =
      bind (deserialize_null-absent heap null_bytes rest refl refl v)
        λ absent w' (e, v'). rw e (returns (refl, v'))
  deserialize-IsReader {w} j (some p) rest fe is v =
      bind
        (not_absent heap p.name (body p rest) is.0.name
          (subst (λ t. IsReader f t w) (regroup p rest) v))
        λ absent w' (e, v'). rw e (
          rw (do_deserialize-calls (person_table heap) j fe v') (
            deserialize_person-IsReader p rest is.0
              (subst (λ t. IsReader f t w') (sym (regroup p rest)) v')))

  pub deserialize_all-IsReader :
      (j : ℕ) (people : List (Option Person)) {w : World}
      → f.dser_func ≡ some j
      → ArePeople people
      → IsReader f (all_bytes people) w
      → Returns (λ got _. got ≡ people) (deserialize_all heap people w)
  unfolding deserialize_all all_bytes
  deserialize_all-IsReader j [] fe is v = returns refl
  deserialize_all-IsReader j (p ∷ ps) fe is v =
      bind (deserialize-IsReader j p (all_bytes ps) fe (one_person p ps is) v) λ got w' (e, v').
        bind (deserialize_all-IsReader j ps fe (other_people p ps is) v')
          λ others w2 e2. returns (rw (e, e2))
