-- ===== src/Lib.antt =====
-- A verification library for zab, a coroutine executor over io_uring.
--
-- Suspended coroutines wait in intrusive lists that are linked through atomic words; a release, an
-- unpause or a timer hands them to the engine, which queues them on the event loop of a thread. The
-- parts modelled here are the synchronisation primitives, the timer service, the engine's choice of
-- threads, the queue and the io_uring operations of the event loop, files, the network operations with
-- the acceptor, the connector and the stream over them, the observable, the signal handler, generators
-- and futures, with what awaits several of them or runs them on another thread.
--
-- Which file models which part:
--   Prelude            shared names, lists, machine words, sums; no code of the program
--   Memory             the waiters' link fields and the loop that turns a stack of waiters round
--                      (`transfer` and `release` of includes/zab/async_semaphore.hpp)
--   Semaphore/Binary   `async_counting_semaphore<1>` of includes/zab/async_semaphore.hpp: members
--                      `resuming_`, `transfer_`, `next_waiting_` are `Sem`; `try_aquire`, `suspend` and
--                      `release` are the constructors of `Move`
--   Mutex              `async_lock_guard` of includes/zab/async_mutex.hpp
--   PauseToken         includes/zab/pause_token.hpp: `access` is one turn of a coroutine
--   Latch              includes/zab/async_latch.hpp
--   SpinLock           `spin_lock` and `recursive_spin_lock` of includes/zab/spin_lock.hpp
--   Timer              includes/zab/timer_service.hpp and src/timer_service.cpp: `wait` is `wait`,
--                      `tick` is a round of `run`, Buckets its `std::map`, Abstract the bag of its
--                      sleepers, Order the times of includes/zab/strong_types.hpp
--   Barrier            includes/zab/async_barrier.hpp: `complete_phase` and what it calls; a phase is
--                      run without arrivals in between
--   EventLoop          the user-space queue of src/event_loop.cpp: `Step` are the parts of
--                      `dispatch_user_event`, `wake` and `run_user_space`
--   Uring              `do_op`, the operations and the batches of src/event_loop.cpp, with their
--                      awaitables in includes/zab/event_loop.hpp; liburing is the parameter `IoUring`
--   Engine             src/engine.cpp: the number of threads, the choice of a thread, dispatch
--   Awaitable          includes/zab/stateful_awaitable.hpp; Drive is the rule for a loop of notifications
--   Network            includes/zab/network_operation.hpp and src/network_operation.cpp; Ownership runs
--                      any commands on any number of objects
--   Stream             includes/zab/tcp_stream.hpp: `write` and `read` are the functors, Transfers the
--                      loop of operations, with the socket as a parameter
--   Semaphore/Counting the counting semaphore of includes/zab/async_semaphore.hpp: `Move` are the accesses
--                      of `await_suspend`, `try_aquire` and `release`, `Turn` those of `control`
--   WaitFor            `wait_for` of includes/zab/wait_for.hpp on futures given one by one; Vector is the
--                      one on a vector, over Latch
--   FirstOf            includes/zab/first_of.hpp
--   Observable         includes/zab/observable.hpp, over Latch; Owed counts who still holds an emission
--   SimpleFuture       includes/zab/simple_promise.hpp and includes/zab/simple_future.hpp: `step` is a
--                      coroutine from one suspension to the next, `Body` what it does in between
--   SignalHandler      src/signal_handler.cpp and includes/zab/signal_handler.hpp, with the bytes that
--                      are read from its pipe as an argument of `run`
--   AsyncFile          includes/zab/async_file.hpp: the loops of `write_to_file` and `read_file` over the
--                      parameter `Disk`, on fuel for their rounds; Owner is who has which descriptor
--   ReusableFuture     includes/zab/reusable_promise.hpp, includes/zab/reusable_future.hpp and
--                      includes/zab/for_each.hpp: a generator, and the loop over it, on fuel
--   Tcp                src/tcp_networking.cpp and includes/zab/tcp_networking.hpp, over Network and Stream
--   Proxy              `proxy` of includes/zab/engine_enabled.hpp, over ReusableFuture
--
-- Concurrency: memory is sequentially consistent, and a step is one access to a shared atomic word
-- with the thread's local work that follows it; a weak compare-exchange may fail without cause. Any
-- interleaving is a sequence of steps, a step relation (Semaphore, EventLoop, WaitFor, FirstOf,
-- Observable) or a schedule that a function runs (SpinLock, PauseToken). `thread_resume` lets the
-- resumed coroutine run on at once: what the event loop does in between does not touch the primitive.
--
-- Addresses are numbers; 0 is null and 1 the flag of the words that hold one, so waiters are at 2 or
-- above. Words of 64 bits wrap modulo 2^64, `std::ptrdiff_t` is read as two's complement, and a
-- theorem that needs a bound states it; the counts of Semaphore/Counting are integers without bounds.
--
-- Fuel: `Memory.reverse_loop` takes one unit for each waiter on the stack, and the semaphore's theorems
-- show that a release, and `transfer` of the counting one, always finds such fuel; the loops of
-- Barrier take one for each entry of the working set, which its theorems ask for.
--
-- A run of SimpleFuture takes the number of steps that `steps` computes from the coroutine's body. The
-- loops of AsyncFile take one unit for each round, two when the operations transfer all at once, and
-- `for_each` one more than there are values; where no fuel is enough, a theorem says so.
--
-- Not modelled: weak memory orders, the code of the coroutine frames outside SimpleFuture, io_uring and
-- the system calls (the kernel's timer is a parameter of Timer, liburing one of Uring, the socket one of
-- Stream, that on a file one of AsyncFile, what the calls on sockets answer an argument in Tcp), and the
-- components that the manifest lists as such: generic promises and awaitables, and the members of
-- engine_enabled that forward to the engine.
pub mod Prelude
pub mod Memory
pub mod Semaphore
pub mod Mutex
pub mod PauseToken
pub mod Latch
pub mod SpinLock
pub mod Timer
pub mod Barrier
pub mod EventLoop
pub mod Engine
pub mod Uring
pub mod Awaitable
pub mod Network
pub mod Stream
pub mod WaitFor
pub mod FirstOf
pub mod Observable
pub mod SimpleFuture
pub mod SignalHandler
pub mod AsyncFile
pub mod ReusableFuture
pub mod Tcp
pub mod Proxy
