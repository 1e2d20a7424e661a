-- ===== src/Copy/Laws.antt =====
-- The copy that posix_cp_example.c makes of a regular file.
use mathlib.Core.List.{append_assoc}
use c_playground.Prelude.{
  ℕ, zero, suc, ◌*◌, ◌≡◌, ◌≤◌, ◌<◌, refl, ap, ◌∙◌, List, [], ◌∷◌, ◌++◌, ◌==◌, if◌then◌else◌, Bool,
  true, false, length, take, drop, take-append-drop, take-all, length-take, length-drop, arith,
  dec_lt,
}
use Prim.Native.Nat.{min}
use c_playground.Machine.{ℤ, pos, negsuc}
use c_playground.Getopt.{Text}
use c_playground.Copy.{
  System, Ended, exit_success, buf_size, after_read, copy, close_both, with_source, main,
}

-- The bytes that a `write` has taken, by its result: as many as it says, and none with -1.
abbrev pub accepted : ℤ → List ℕ → List ℕ
accepted (pos n) bytes = take n bytes
accepted (negsuc n) bytes = []

-- What POSIX says of two files that nobody else uses: a regular one that is read, with the bytes that
-- are `left` of it, and the `content` of the one that is written.
pub record IsRegular (S : System) (src des : ℤ) : Type 0 where
  pub left : S.State → List ℕ
  pub content : S.State → List ℕ
  pub read_all : (n : ℕ) (s : S.State) → (S.read src n s).0 ≡ pos (min n (length (left s)))
  pub read_bytes : (n : ℕ) (s : S.State) → (S.read src n s).1 ≡ take n (left s)
  pub read_left : (n : ℕ) (s : S.State) → left (S.read src n s).2 ≡ drop n (left s)
  pub read_content : (n : ℕ) (s : S.State) → content (S.read src n s).2 ≡ content s
  pub write_content :
      (bytes : List ℕ) (s : S.State)
      → content (S.write des bytes s).1 ≡ content s ++ accepted (S.write des bytes s).0 bytes
  pub write_left : (bytes : List ℕ) (s : S.State) → left (S.write des bytes s).1 ≡ left s
  pub close_content : (fd : ℤ) (s : S.State) → content (S.close fd s) ≡ content s

-- How the `write`s go: each takes all of its bytes, or each fails.
abbrev pub Answers : (S : System) → (des : ℤ) → (whole : Bool) → Type 0
Answers S des whole =
    (bytes : List ℕ) (s : S.State)
    → (S.write des bytes s).0 ≡ (if whole then pos (length bytes) else negsuc 0)

accepted-all :
    (whole : Bool) (bytes : List ℕ)
    → accepted (if whole then pos (length bytes) else negsuc 0) bytes
      ≡ (if whole then bytes else [])
accepted-all true bytes = take-all (length bytes) bytes (omega arith)
accepted-all false bytes = refl

module _ {S : System} {src des : ℤ} (whole : Bool) (f : IsRegular S src des)
    (answers : Answers S des whole) where
  whole_write :
      (bytes : List ℕ) (s : S.State)
      → f.content (S.write des bytes s).1 ≡ f.content s ++ (if whole then bytes else [])
  whole_write bytes s =
      f.write_content bytes s
      ∙ ap (λ r. f.content s ++ accepted r bytes) (answers bytes s)
      ∙ ap (λ b. f.content s ++ b) (accepted-all whole bytes)

  -- What the loop leaves: the source read to its end, and the rest of it behind the target.
  record Copied (s : S.State) (e : Ended S.State) : Type 0 where
    last : S.State
    ends : e ≡ exit_success last
    content : f.content last ≡ f.content s ++ (if whole then f.left s else [])

  -- One round.
  abbrev written : S.State → S.State
  written s = let r = S.read src buf_size s in (S.write des r.1 r.2).1

  written-left : (s : S.State) → f.left (written s) ≡ drop buf_size (f.left s)
  written-left s = f.write_left _ _ ∙ f.read_left buf_size s

  written-content :
      (s : S.State)
      → f.content (written s) ≡ f.content s ++ (if whole then take buf_size (f.left s) else [])
  written-content s =
      whole_write _ _
      ∙ ap (λ c. c ++ (if whole then (S.read src buf_size s).1 else [])) (f.read_content buf_size s)
      ∙ ap (λ b. f.content s ++ (if whole then b else [])) (f.read_bytes buf_size s)

  both :
      (b : Bool) (xs ys zs : List ℕ)
      → ys ++ zs ≡ xs
      → (if b then ys else []) ++ (if b then zs else []) ≡ (if b then xs else [])
  both true xs ys zs e = e
  both false xs ys zs e = refl

  -- The round as `after_read` makes it.
  after_read-pos :
      (again : S.State → Ended S.State) (num : ℕ) (bytes : List ℕ) (s : S.State)
      → length bytes ≤ num
      → after_read S again des (pos num, bytes, s) ≡ (
          if num == buf_size
          then again (S.write des bytes s).1
          else exit_success (S.write des bytes s).1)
  after_read-pos again num bytes s le = rw (take-all num bytes le) refl

  round :
      (again : S.State → Ended S.State) (s : S.State)
      → after_read S again des (S.read src buf_size s) ≡ (
          if min buf_size (length (f.left s)) == buf_size
          then again (written s)
          else exit_success (written s))
  round again s =
      let r = S.read src buf_size s in
      let num = min buf_size (length (f.left s)) in
      let le : length r.1 ≤ num =
        omega (arith, ap length (f.read_bytes buf_size s), length-take buf_size (f.left s)) in
      ap (λ z. after_read S again des (z, r.1, r.2)) (f.read_all buf_size s)
      ∙ after_read-pos again num r.1 r.2 le

  copy-Copied :
      (fuel : ℕ) (s : S.State)
      → length (f.left s) < buf_size * fuel
      → Copied s (copy S fuel src des s)
  unfolding copy
  copy-Copied zero s le = absurd (omega arith)
  copy-Copied (suc fuel) s le = elim (dec_lt (length (f.left s)) buf_size) [
    | yes short ↦
        let num : (min buf_size (length (f.left s)) == buf_size) ≡ false = ground (arith, short) in
        record {
          last = written s;
          ends =
              round (copy S fuel src des) s
              ∙ ap (λ b. if b then copy S fuel src des (written s) else exit_success (written s))
                  num;
          content =
              written-content s
              ∙ ap (λ b. f.content s ++ (if whole then b else []))
                  (take-all buf_size (f.left s) (omega (arith, short)));
        }
    | no full ↦
        let num : (min buf_size (length (f.left s)) == buf_size) ≡ true = ground (arith, full) in
        let shorter : length (f.left (written s)) < buf_size * fuel =
          omega (arith, le, full, ap length (written-left s), length-drop buf_size (f.left s)) in
        let rest = copy-Copied fuel (written s) shorter in
        record {
          last = rest.last;
          ends =
              round (copy S fuel src des) s
              ∙ ap (λ b. if b then copy S fuel src des (written s) else exit_success (written s))
                  num
              ∙ rest.ends;
          content =
              rest.content
              ∙ ap (λ c. c ++ (if whole then f.left (written s) else [])) (written-content s)
              ∙ append_assoc (f.content s) _ _
              ∙ ap (λ c. f.content s ++ c)
                  (both whole (f.left s) (take buf_size (f.left s)) (f.left (written s)) (
                    ap (λ l. take buf_size (f.left s) ++ l) (written-left s)
                    ∙ take-append-drop buf_size (f.left s)));
        }
  ]

-- `main` on a regular source with fewer bytes left than 128 in each of the rounds allowed ends with
-- EXIT_SUCCESS, both when each `write` to the target takes all of its bytes and when each fails, as
-- where the second `open` has failed. What it has written behind the content of the target is in the
-- first case the source to its end, and in the second nothing.
pub main_copies :
    (S : System) (fuel : ℕ) (program src_file des_file : Text) (s s1 s2 : S.State) (fd_src : ℕ)
    (fd_des : ℤ) (whole : Bool) (f : IsRegular S (pos fd_src) fd_des)
    → Answers S fd_des whole
    → S.open_source src_file s ≡ (pos fd_src, s1)
    → S.open_target des_file s1 ≡ (fd_des, s2)
    → length (f.left s2) < buf_size * fuel
    → (last : S.State) × (main S fuel (program ∷ src_file ∷ des_file ∷ []) s ≡ exit_success last)
      × (f.content last ≡ f.content s2 ++ (if whole then f.left s2 else []))
unfolding main with_source
main_copies S fuel program src_file des_file s s1 s2 fd_src fd_des whole f answers e e' short =
    let x = copy-Copied whole f answers fuel s2 short in
    (
      S.close fd_des (S.close (pos fd_src) x.last),
      ap (with_source S fuel des_file) e
          ∙ ap (λ o. close_both S (pos fd_src) o.0 (copy S fuel (pos fd_src) o.0 o.1)) e'
          ∙ ap (close_both S (pos fd_src) fd_des) x.ends,
      f.close_content fd_des _ ∙ f.close_content (pos fd_src) x.last ∙ x.content,
    )
