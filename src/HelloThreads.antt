-- ===== src/HelloThreads.antt =====
-- Miscs/hello_pthread.c: `main` as the calls that it makes on its two threads, which only print.
pub mod Laws
mod Tests
use c_playground.Prelude.{if◌then◌else◌}
use c_playground.Calls.{exit_success, Program, ends, call, nonzero}

pub data Thread : Type 0 where
  thread1 thread2 : Thread

pub data Call : Type 0 where
  create : Thread → Call  -- `pthread_create`
  join : Thread → Call  -- `pthread_join`

-- The test behind the second creation is of `iret1` again.
unfoldable pub hello : Program Call
hello = call (create thread1) λ iret1.
    if nonzero iret1
    then ends exit_success
    else call (create thread2) λ iret2.
      if nonzero iret1
      then ends exit_success
      else call (join thread1) λ r. call (join thread2) λ r'. ends exit_success
