-- ===== src/Machine.antt =====
-- C on x86-64 Linux: signed `int` with undefined overflow, `size_t`, bytes of an `int` in memory,
-- and runs that may be undefined.
mod Ints
mod Runs
mod Bytes
pub use Ints.*
pub use Runs.*
unfoldable pub use Bytes.{write_at, fresh}
pub use Bytes.*
