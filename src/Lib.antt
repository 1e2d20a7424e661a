-- ===== src/Lib.antt =====
-- Verification of the C programs of this repository that carry logic of their own.
--
-- Serialization (common/). `Serialize/Buffer` is serialized_buffer.c, `Serialize/Write` serialize.c,
-- `Serialize/Read` deserialize.c, `Serialize/Person` serialization_test.c. A buffer keeps the block
-- at `b` as a list of bytes whose length is the true extent, next to the reported `size` and the
-- position `next`, both signed ints; NULL, use after free, an access outside the block and int
-- overflow are the result `undefined`. malloc and realloc are a parameter `Allocator`: which calls
-- are served, and what new cells hold. Function names are those of the source without the prefix
-- `serialized_buffer_`. `Serialize/Stream` is the abstract view, a writer's and a reader's stream of
-- bytes. `Rpc` (Linux/RPC/simple_rpc.c) is a client of the same functions: `multiply_rpc` and
-- `rpc_send_recv`, which yields the bytes that it sends; gethostbyname and socket are parameters.
--
-- Producers and consumers (Pthread/multiple_producer_consumer.c). `Producers` holds `buffer_t` and
-- the bodies that run under the mutex; `Producers/System` the threads, which move in any order by one
-- semaphore call or one locked body at a time, `main` as the last of them. `Producers/Startup` is
-- `main` from its arguments to its waiting loop, with `threads_create` and `buffer_destroy`, which on
-- its failures runs while threads do; atoi, malloc and pthread_create are parameters.
-- `Producers/Ending` counts the moves of the threads.
--
-- One producer and one consumer (Pthread/producer_consumer.c). `Turns` has `buf_t` with the globals
-- and the two locked turns, for any value of `num_gen` (800 in the source); `Turns/System` the two
-- threads, which move in any order from one test, semaphore call or turn to the next. `Turns/Main` is
-- `main`, which creates and joins them; `pthread_create` may fail.
--
-- Thread pool (common/thpool.c). `ThreadPool/Store` has the jobs on a heap, the fields of
-- `thpool_job_queue_t` and the semaphore with its sleepers; `ThreadPool/Queue` the functions
-- `jobqueue_*` (without that prefix), `thpool_add_work`, and the part of `thread_do` that pulls,
-- calls and frees a job, each of them in one piece. `ThreadPool/Chain` is the abstract view, a
-- list of tasks. `ThreadPool/Workers` runs any number of workers (`thread_do`) beside one client,
-- which makes the pool, submits, waits and destroys in any order that is allowed; a job may
-- submit others while it runs. A section under `thcount_lock`, `rw_mutex` or the semaphore's
-- mutex is one step; a worker sleeps in `bsem_wait` until it is signalled, and wake-ups may be
-- spurious. `ThreadPool/Workers/Draining` counts the workers' steps, for the sleep of
-- `thpool_wait` in `ThreadPool/Workers/Waking`. `ThreadPool/Creation` is `thpool_init` and
-- `thread_init`, with what the system grants as parameters; `ThreadPool/Pausing` adds
-- `thpool_pause`, `thpool_resume` and the handler of SIGUSR1. An initialized mutex or condition
-- variable that is initialized again is undefined, as POSIX has it; so is `pthread_detach` of an
-- id that was never written. So no run gets past `jobqueue_destroy`.
--
-- Options (Console/console_template.c, and the first calls of `main` in producer_consumer.c):
-- `Console` and `Turns/Options`, over `Getopt`. What `getopt_long` returns is a list of calls; `strdup`,
-- `atoi` and `fopen` are parameters.
--
-- Signals (Linux/Signals/signal_timer_example.c). `Signals` has the three handlers, one read or write
-- of a global at a time, on a stack of frames, since a signal may interrupt a handler; `main` goes on
-- when no handler runs.
--
-- Counting threads. `Counters` (Miscs/condition_variables.c) has two threads, which move in any order
-- from one lock, test or count to the next; `Increments` (Miscs/mutex_example.c and
-- Miscs/pthread_join_example.c) any number of them and `main`, where counter++ is a read and a write;
-- `Handle` (common/thpool_test.c) any number of jobs that share a number without a lock.
--
-- Programs of system calls. `Calls` has programs that go on by what a call returns, the calls they
-- have made for given answers, and protocols: where a call is allowed and what it leaves behind.
-- `Sockets` (Linux/Socket/tcp_server.c, tcp_client.c and the jobs of tcp_standalone.c, two of which run
-- at a time in `Sockets/Standalone`), `Daemon` (Linux/Daemon/simple_daemon.c), `Descriptors`
-- (POSIX_File/posix_open_example.c, fcntl_dup_fd.c, create_no_writefile.c, and Linux/File/src/lseek.c)
-- and `HelloThreads` (Miscs/hello_pthread.c) are written with it.
--
-- `Copy` (POSIX_File/posix_cp_example.c): `main` and its copying loop on a system that is a parameter.
-- `IntBuffer` (Pointers/copy_data_to_pointer_position.c): ints that are copied into a block of bytes.
-- `Pointers` (Pointers/free_pointer.c, double_pointer_ops.c, Miscs/func_arg_ptr.c and free.c): a memory
-- of locals and blocks of `malloc`.
--
-- Logger (common/logger.c). `Logger` has the globals, the level filter, and the assembly of a message
-- in its buffer; what the formatting of each piece yields is a parameter. `Logger/Calls` has the macros
-- of common/logger.h one behind the other, and common/logger_test.c.
--
-- `Machine` has ints and bytes on x86-64 Linux: 32-bit two's complement `int`, 64-bit `size_t`, little
-- endian. `Prelude` has shared names and lemmas.
--
-- Fuel: the growth loops get 64 rounds. A doubling of a positive int overflows before the 32nd, so
-- that the fuel is never used up (`Serialize/Write/Refusal`). The loop of `jobqueue_clear` gets `len`
-- rounds, one for each job. The loop of `Copy` takes the number of its rounds of at most 128 bytes; a
-- source with fewer bytes than 128 in each of them is read to its end.
--
-- Not modelled: several thread pools at a time, and jobs that wait for their own pool or destroy it;
-- the body of simple_daemon.c's `signal_handler`; what the sockets carry; failures of pthread_create
-- outside of `ThreadPool/Creation`, `Producers/Startup`, `Turns/Main` and `HelloThreads`; that the loops
-- of `thpool_destroy` end. Left out because they only call the system, show one library call or are
-- wrong on purpose: output, progress_bar.c, syslog_example.c, the programs of FileIO, fmemopen.c,
-- fcntl_example.c, the other ones of Miscs, GDB and Valgrind.
pub mod Console
pub mod Calls
pub mod Copy
pub mod Counters
pub mod Daemon
pub mod Descriptors
pub mod Getopt
pub mod Handle
pub mod HelloThreads
pub mod Increments
pub mod IntBuffer
pub mod Logger
pub mod Machine
pub mod Pointers
pub mod Prelude
pub mod Producers
pub mod Rpc
pub mod Serialize
pub mod Signals
pub mod Sockets
pub mod ThreadPool
pub mod Turns
