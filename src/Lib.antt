-- ===== src/Lib.antt =====
-- Boost.Task: a thread pool whose workers take callables from a shared queue and from work-stealing queues of
-- their own, with semaphores to sleep on.
--
-- The parts, and the files that model them:
--   Semaphore       include/boost/task/semaphore.hpp, src/semaphore_posix.cpp: `construct`, `post`, `wait`,
--                   `try_wait`. The System V calls are the parameter `Sysv`; `Counting` has a value of it.
--   FastSemaphore   include/boost/task/fast_semaphore.hpp, src/fast_semaphore.cpp: a counter in front of that
--                   semaphore. A call is a function from the state to a `Call`: it returns, sleeps in
--                   the kernel, or throws. `int` wraps at 32 bits (Prelude/Int). `Race` has the same calls
--                   by single accesses, of any number of threads.
--   Wsq             include/boost/task/detail/wsq.hpp, src/detail/wsq.cpp: the ring of a worker. `insert` is `put`
--                   up to `fsem_.post()`, `put` is the whole call; `Deque` is the list that it stands for;
--                   `Shared` has the owner and the thieves at once, by single accesses.
--   Nodes           the linked nodes that the queues share.
--   BoundedFifo     include/boost/task/bounded_fifo.hpp: the queue of a pool, by single accesses to shared
--                   data. `Producer` and `Consumer` are the program counters of the two lock holders,
--                   `step` is one event, `run` a sequence of events in any order; `Lost` a notification
--                   that comes before a producer sleeps.
--   BoundedPrioQueue  include/boost/task/bounded_prio_queue.hpp: the queue by priority. One mutex guards all, so an
--                   event is a call up to its wait, or a woken producer's next test. std::priority_queue
--                   is the parameter `Heap`; the witnesses use a sorted list.
--   Barrier         include/boost/task/spin/barrier.hpp, src/spin/barrier.cpp: `wait` up to its sleep, and what a
--                   woken thread does.
--   Future          include/boost/task/spin/future.hpp: `Object` is the shared state, in a `World` of addresses;
--                   `Handle` the futures, `Promise` and `Task` their owners, `Waiter` the wait for several, with
--                   the locks it holds.
--                   The parameters `invoke` and `call` say what a callback and a functor do to the world,
--                   `broken_promise` is that exception.
--   UnboundedFifo   include/boost/task/unbounded_fifo.hpp: like BoundedFifo without the count and the condition;
--                   `Calls` has its calls, each alone, as a value of the interface Queue.
--   UnboundedPrioQueue  include/boost/task/unbounded_prio_queue.hpp: a call is one step. std::priority_queue is the
--                   parameter `PriorityQueue`.
--   Events          include/boost/task/spin/auto_reset_event.hpp, count_down_event.hpp,
--                   manual_reset_event.hpp and their files in src/spin: `AutoReset`, `CountDown`, `ManualReset`;
--                   `set` of the count-down event is three steps, and each access of the manual-reset event one.
--   Mutex           include/boost/task/spin/mutex.hpp, src/spin/mutex.cpp: `Threads` are those on one mutex.
--   Condition       include/boost/task/spin/condition.hpp, src/spin/condition.cpp: `step` is what one thread does
--                   between two accesses that others may see; `Predicate` has the waits for a predicate,
--                   `Unlocked` the mutex under a wait that is interrupted.
--   Queue           what a pool asks of its queue, with the laws of a FIFO.
--   Pool            include/boost/task/detail/pool_base.hpp, worker.hpp and src/detail/worker_group.cpp: `submit`,
--                   `shutdown` and the interruption of workers; `Worker` is the loop of a worker, turn by turn,
--                   `Steal` its search through the other rings, `Attributes` the submission by priority.
--                   `Outside` has what a turn takes from outside:
--                   the random index, the try-locks, and what the work does.
--   Handle          what the classes that point to a queue or pool share; the module `Pointer` of a queue, and
--                   Pool/Static for include/boost/task/static_pool.hpp, have the calls of each.
--   Context         include/boost/task/context.hpp, src/context.cpp: the request to interrupt a task.
--   Launch          include/boost/task/callable.hpp, task.hpp, detail/task_object.hpp, own_thread.hpp: the promise,
--                   context, callable and task that a launch makes, and the run of the callable; `NewThread` has
--                   new_thread.hpp and async.hpp.
--   Limits          src/poolsize.cpp, src/watermark.cpp, src/stacksize.cpp.
--   Prelude         names of the libraries, tests, lists, the bit mask, `int`.
-- A pool gives one fast semaphore to its queue and to the ring of each worker: `put` posts on it, and a worker
-- that finds no work waits on it.
--
-- Atomics are taken as sequentially consistent. Indices of `Wsq` wrap at 32 bits and counts of `BoundedFifo` at
-- 64; where a theorem needs that they do not, its hypothesis bounds them. Loops are recursions on the
-- rounds left, on the list of what other threads do, of the worlds a wait is woken in, or of events,
-- so none needs fuel; the loop of a worker runs for a number of turns, and the theorems about it say
-- which number is enough.
-- Threads that wait for a lock are not represented; who gets it is the next event's choice. A node of
-- the queue gets its address where it is linked. Reference counts and freeing are not modelled.
-- Outside the model: the channels of include/boost/task/spin, whose interrupted takes unlock what they do not
-- hold; the static pools over bounded queues; fork; Windows.
pub mod Prelude
pub mod Semaphore
pub mod FastSemaphore
pub mod Wsq
pub mod Nodes
pub mod BoundedFifo
pub mod BoundedPrioQueue
pub mod Barrier
pub mod Future
pub mod Context
pub mod Launch
pub mod Limits
pub mod Queue
pub mod UnboundedFifo
pub mod Pool
pub mod UnboundedPrioQueue
pub mod Mutex
pub mod Condition
pub mod Events
pub mod Handle
