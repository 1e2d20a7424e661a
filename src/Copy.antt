-- ===== src/Copy.antt =====
-- POSIX_File/posix_cp_example.c: `main` and its copying loop, on a system that is a parameter.
pub mod Laws
mod Tests
use c_playground.Prelude.{
  ℕ, zero, suc, ◌≡◌, ◌+◌, Option, none, some, List, [], ◌∷◌, ◌++◌, ◌==◌, if◌then◌else◌, Bool, true,
  false, length, take,
}
use c_playground.Machine.{ℤ, pos, negsuc}
use c_playground.Getopt.{Text}

-- The calls of the system: what they return and what they change. `read` also gives the bytes that it
-- put into the buffer, and `write` is given the bytes.
pub record System : Type 1 where
  pub State : Type 0
  pub open_source : Text → State → ℤ × State  -- O_RDONLY
  pub open_target : Text → State → ℤ × State  -- O_CREAT | O_EXCL | O_WRONLY, 0644
  pub read : (fd : ℤ) (count : ℕ) → State → ℤ × List ℕ × State
  pub write : (fd : ℤ) → List ℕ → State → ℤ × State
  pub close : (fd : ℤ) → State → State

-- How `main` ends.
pub data Ended (State : Type 0) : Type 0 where
  exit_success : State → Ended State
  exit_failure : State → Ended State
  undefined : Ended State
  out_of_fuel : Ended State

-- The size of `buf`.
abbrev pub buf_size : ℕ
buf_size = 128

module _ (S : System) where
  -- Behind `read`: `write` of `num` bytes, and the test of the loop. With -1 the number of bytes is the
  -- greatest `size_t`, far beyond `buf`.
  abbrev after_read :
      (again : S.State → Ended S.State) (fd_des : ℤ) → ℤ × List ℕ × S.State → Ended S.State
  after_read again fd_des (negsuc _, bytes, s) = undefined
  after_read again fd_des (pos num, bytes, s) =
      let s' = (S.write fd_des (take num bytes) s).1 in
      if num == buf_size then again s' else exit_success s'

  -- `do … while(num==128)`
  copy : (fuel : ℕ) (fd_src fd_des : ℤ) → S.State → Ended S.State
  copy zero fd_src fd_des s = out_of_fuel
  copy (suc fuel) fd_src fd_des s =
      after_read (copy fuel fd_src fd_des) fd_des (S.read fd_src buf_size s)

  abbrev close_both : (fd_src fd_des : ℤ) → Ended S.State → Ended S.State
  close_both fd_src fd_des (exit_success s) = exit_success (S.close fd_des (S.close fd_src s))
  close_both fd_src fd_des e = e

  -- Behind the first `open`; what the second one returns is not looked at.
  with_source : (fuel : ℕ) (des_file : Text) → ℤ × S.State → Ended S.State
  unfolding copy
  with_source fuel des_file (negsuc _, s) = exit_failure s
  with_source fuel des_file (pos fd_src, s) =
      let o = S.open_target des_file s in
      close_both (pos fd_src) o.0 (copy fuel (pos fd_src) o.0 o.1)

  -- `main`
  pub main : (fuel : ℕ) (argv : List Text) → S.State → Ended S.State
  unfolding with_source
  main fuel (program ∷ src_file ∷ des_file ∷ []) s =
      with_source fuel des_file (S.open_source src_file s)
  main fuel argv s = exit_failure s
