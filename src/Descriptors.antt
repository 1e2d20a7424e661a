-- ===== src/Descriptors.antt =====
-- POSIX_File/posix_open_example.c, fcntl_dup_fd.c and create_no_writefile.c, and Linux/File/src/lseek.c:
-- `main` as the calls that it makes by what the calls return. The names of the files and the output are
-- left out.
pub mod Laws
mod Tests
use c_playground.Prelude.{ℕ, zero, Bool, true, false, if◌then◌else◌, ltb, ◌||◌}
use c_playground.Machine.{ℤ, pos, negsuc}
use c_playground.Calls.{Ending, exit_success, exit_failure, Program, ends, call, negative}

-- O_RDONLY and O_WRONLY
pub data Access : Type 0 where
  rdonly wronly : Access

pub data Whence : Type 0 where
  seek_cur seek_data : Whence

-- The calls on files, with the descriptor.
pub data Call : Type 0 where
  open_file : Access → (create excl : Bool) → Call  -- with O_CREAT and O_EXCL
  creat : Call
  dup : ℤ → Call  -- `fcntl` with F_DUPFD
  write : ℤ → ℕ → Call  -- so many bytes
  read : ℤ → ℕ → Call
  lseek : ℤ → ℤ → Whence → Call
  close : ℤ → Call
  system : Call  -- `cat` of the file

abbrev minus_one : ℤ → Bool
minus_one (negsuc zero) = true
minus_one _ = false

-- posix_open_example.c. The second `open` stands left of a comma: what is compared with -1 is 0644.
unfoldable pub posix_open : Program Call
posix_open = call (open_file rdonly false false) λ fd_open.
    if minus_one fd_open
    then ends exit_failure
    else call (open_file rdonly true true) λ fd_open_create.
      if minus_one (pos 420)
      then ends exit_failure
      else call creat λ fd_create.
        if minus_one fd_create
        then ends exit_failure
        else call (close fd_open)
            λ r. call (close fd_create) λ r'. call (close fd_open_create) λ r''. ends exit_success

-- fcntl_dup_fd.c, which writes "hello world!\n" twice.
unfoldable pub dup_fd : Program Call
dup_fd = call creat λ fd_creat.
    if minus_one fd_creat
    then ends exit_failure
    else call (close fd_creat) λ r. call (open_file wronly true false) λ fd_open.
      if minus_one fd_open
      then ends exit_failure
      else call (dup fd_open) λ fd_dup. call (write fd_open 13) λ n. call (write fd_dup 13) λ n'.
        call (close fd_open)
          λ r'. call (close fd_dup) λ r''. call system λ status. ends exit_success

-- create_no_writefile.c, which writes "test message!\n" with its zero.
unfoldable pub no_writefile : Program Call
no_writefile =
    call (open_file wronly true false)
      λ fd. call (write fd 15) λ n. call (close fd) λ r. ends exit_success

-- The calls of lseek.c once the file is open.
abbrev pub seeks : (fd : ℤ) → Program Call
seeks fd = call (lseek fd (pos 10) seek_cur) λ off. call (lseek fd (pos 10) seek_cur) λ off.
    call (lseek fd (pos 10) seek_cur) λ off. call (lseek fd (negsuc 49) seek_cur) λ off.
      call (lseek fd (pos 1000000) seek_data) λ off.
        call (lseek fd (pos 100) seek_data)
          λ off. call (lseek fd (pos 0) seek_data) λ off. call (read fd 20) λ nr. ends exit_success

-- lseek.c, with the number of its arguments, and whether `argv[1]` is NULL.
unfoldable pub lseek_main : (argc : ℕ) (null : Bool) → Program Call
lseek_main argc null =
    if ltb argc 2 || null
    then ends exit_failure
    else call (open_file rdonly false false)
        λ fd. if negative fd then ends exit_failure else seeks fd
