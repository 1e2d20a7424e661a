-- ===== src/Descriptors/Laws.antt =====
-- Which calls of the file programs are allowed on the descriptors that they get.
use c_playground.Prelude.{
  ℕ, ◌≡◌, ◌≢◌, ◌↔◌, refl, sym, ap, Bool, true, false, Option, none, some, List, [], ◌∷◌, update,
  update-same, arith, if◌then◌else◌, ltb, ◌||◌,
}
use c_playground.Machine.{ℤ, pos, negsuc}
use c_playground.Calls.{
  Protocol, Follows, Safe, Safe-Follows, made, negative, ends, call, exit_failure,
}
use c_playground.Descriptors.{
  Access, rdonly, wronly, Call, open_file, creat, dup, write, read, lseek, close, posix_open,
  dup_fd, no_writefile, seeks, lseek_main,
}

-- The open descriptors, with the access that they were opened for.
abbrev pub Files : Type 0
Files = ℕ → Option Access

abbrev pub no_files : Files
no_files n = none

abbrev pub access : ℤ → Files → Option Access
access (pos n) t = t n
access (negsuc n) t = none

abbrev is_open : Option Access → Bool
is_open none = false
is_open (some _) = true

abbrev may_read : Option Access → Bool
may_read (some rdonly) = true
may_read _ = false

abbrev may_write : Option Access → Bool
may_write (some wronly) = true
may_write _ = false

abbrev pub allowed : Call → Files → Bool
allowed (dup fd) t = is_open (access fd t)
allowed (write fd n) t = may_write (access fd t)
allowed (read fd n) t = may_read (access fd t)
allowed (lseek fd off whence) t = is_open (access fd t)
allowed (close fd) t = is_open (access fd t)
allowed _ t = true

abbrev put : ℤ → Option Access → Files → Files
put (pos n) a t = update t n a
put (negsuc n) a t = t

-- A call that opens a descriptor returns it, and `close` releases its own whatever it returns.
abbrev pub after : Call → ℤ → Files → Files
after (open_file a create excl) r t = put r (some a) t
after creat r t = put r (some wronly) t
after (dup fd) r t = put r (access fd t) t
after (close fd) r t = put fd none t
after _ r t = t

abbrev pub files : Protocol Call Files
files = record { allowed = allowed; after = after }

-- The first open and `creat` have returned descriptors, and the kernel gives none twice. Then the calls
-- of posix_open_example.c are allowed where it makes them exactly when the second open did not fail,
-- which goes unnoticed.
pub posix_open-Follows :
    (a c : ℕ) (r x y z : ℤ)
    → a ≢ c
    → r ≢ pos a
    → r ≢ pos c
    → Follows files no_files (made posix_open (pos a ∷ r ∷ pos c ∷ x ∷ y ∷ z ∷ []))
      ↔ (negative r ≡ false)
unfolding posix_open
posix_open-Follows a c (pos b) x y z ac ra rc =
    let ba : b ≢ a = λ e. ra (ap pos e) in
    let bc : b ≢ c = λ e. rc (ap pos e) in
    (
      λ f. refl,
      λ e. (
        refl,
        (
          refl,
          (
            refl,
            (
              ground (arith, ac, ba, bc),
              (ground (arith, ac, ba, bc), (ground (arith, ac, ba, bc), tt)),
            ),
          ),
        ),
      ),
    )
posix_open-Follows a c (negsuc n) x y z ac ra rc = (λ f. sym f.1.1.1.1.1.0, λ e. absurd (cc))

-- `creat` and the open behind it have returned descriptors. Then the calls of fcntl_dup_fd.c are
-- allowed where it makes them exactly when F_DUPFD did not fail, which goes unnoticed.
pub dup_fd-Follows :
    (a c : ℕ) (r x n n' y z status : ℤ)
    → r ≢ pos a
    → Follows files no_files (made dup_fd (pos c ∷ x ∷ pos a ∷ r ∷ n ∷ n' ∷ y ∷ z ∷ status ∷ []))
      ↔ (negative r ≡ false)
unfolding dup_fd
dup_fd-Follows a c (pos b) x n n' y z status ra =
    let ba : b ≢ a = λ e. ra (ap pos e) in
    (
      λ f. refl,
      λ e. (
        refl,
        (
          rw update-same refl,
          (
            refl,
            (
              rw update-same refl,
              (
                ground (arith, ba),
                (ground (arith, ba), (ground (arith, ba), (ground (arith, ba), (refl, tt)))),
              ),
            ),
          ),
        ),
      ),
    )
dup_fd-Follows a c (negsuc m) x n n' y z status ra = (λ f. sym f.1.1.1.1.1.0, λ e. absurd (cc))

-- create_no_writefile.c does not test its open either: its calls are allowed exactly when it succeeded.
pub no_writefile-Follows :
    (r n x : ℤ) → Follows files no_files (made no_writefile (r ∷ n ∷ x ∷ [])) ↔ (negative r ≡ false)
unfolding no_writefile
no_writefile-Follows (pos m) n x =
    (λ f. refl, λ e. (refl, (rw update-same refl, (rw update-same refl, tt))))
no_writefile-Follows (negsuc m) n x = (λ f. sym f.1.0, λ e. absurd (cc))

-- Whatever its arguments and for any answers, lseek.c seeks and reads in an open file only.
pub lseek_main-Follows :
    (argc : ℕ) (null : Bool) (answers : List ℤ)
    → Follows files no_files (made (lseek_main argc null) answers)
unfolding lseek_main
lseek_main-Follows argc null answers =
    Safe-Follows files (lseek_main argc null) no_files answers (usage (ltb argc 2 || null))
  where
    opened :
        (r : ℤ)
        → Safe files
            (if negative r then ends exit_failure else seeks r)
            (put r (some rdonly) no_files)
    opened (pos n) =
        let here = update-same no_files n (some rdonly) in
        let seek : is_open (update no_files n (some rdonly) n) ≡ true = rw here refl in
        (
          seek,
          λ r. (
            seek,
            λ r. (
              seek,
              λ r. (seek, λ r. (seek, λ r. (seek, λ r. (seek, λ r. (rw here refl, λ r. tt))))),
            ),
          ),
        )
    opened (negsuc n) = tt

    usage :
        (b : Bool)
        → Safe files
            (if b
              then ends exit_failure
              else (call
                  (open_file rdonly false false)
                  λ fd. if negative fd then ends exit_failure else seeks fd))
            no_files
    usage true = tt
    usage false = (refl, opened)
