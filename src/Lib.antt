-- ===== src/Lib.antt =====
-- A parcel warehouse as processes over System V shared memory: workers put packages on a conveyor
-- belt, the dispatcher moves them onto the truck at the dock, the P4 worker loads express batches, trucks
-- come and go, and an operator's console gives orders. Each process calls the methods of a `Manager`
-- on one `SharedState`, guarded by semaphores, and a message queue carries signals between them.
--
-- Files, and the code that they are about:
-- - Base: tests on the native numbers, arrays as lists, C strings, and `double` as a parameter.
-- - Shared: include/Shared.h, the records of the shared segment, the enumerations and the limits.
-- - Manager: include/Manager.h. A method is a function from a `World` (shared memory, semaphore values,
--   message queue, reports of the coming system calls) to an `Outcome`: returned, asleep, or exited.
--   Manager/Lifecycle has the constructor and the destructor, on the kernel's IPC objects.
-- - Belt: include/Belt.h; Belt/Class is the class with the callbacks of its constructor as fields; Belt/Queue
--   is the abstract queue, Belt/Ring is about the buffer's layouts; Belt/Guarded takes whatever
--   callbacks, and Belt/Wiring those of `Manager`; Belt/Threads takes the methods of Belt and
--   SessionManager that lock the belt apart at the lock, the reading, the assignments and the unlock,
--   and interleaves processes.
-- - Session: include/SessionManager.h.
-- - Truck, Dispatcher, Express, Worker: the headers of these names, the random draws as arguments; the
--   first three have a Class with the callbacks as fields, which the parent gives those of `Manager`.
-- - Terminal: include/terminal, with `resolve`, the three orders and `runOnce`.
-- - Config: include/Config.h. Processes: src/main*.cpp, the guards, loops and the master process, the
--   signals that reach a worker (Handlers), and what several components do together (Shutdown, Orders,
--   Pipeline).
-- - Dock: the sections of Truck, Dispatcher and Express that lock the dock, taken apart in the same way and
--   interleaved. Manager/Runs is about processes that run such pieces. Dispatcher/Verdict and
--   Express/Boarding tell from the fields of the truck what a turn and a batch come to.
-- - Fleet/Stale: a truck and the dispatcher over the message queue.
-- - Examples: the theorems at concrete inputs.
--
-- Operations keep the source's names in snake case: `Belt::registerWorker` is `register_worker`,
-- `Manager::semOperation` is `sem_operation`. A callback is the method of `Manager` that the
-- mains pass, but in the Class modules it is a field. An index or process id of -1 is `none`. A counter of
-- type `int` starts at 0 and is the number of its 32 bits, so that from 2^31 on it stands for a negative
-- one; the increment of 2^31 - 1 is undefined in C++, and theorems that speak of numbers stay below
-- it. A bitmask enumeration is its underlying number.
--
-- `double` is an abstract type with literals, `+`, `-`, `*` and two comparisons. Where an order is needed, a
-- theorem assumes `IsOrdered`; the instance of whole millionths satisfies it. `semop`, `msgsnd` and `msgrcv`
-- behave as documented; a list of reports says which of them fail, and with which `errno`,
-- or that `msgsnd` finds the queue full and sleeps. Where no call fails, the queue has room, too.
--
-- Loops that run until the system stops take a list with what the other processes do in each round; it may
-- be of any length, and where it ends the next round is still to come (`blocked`), but a worker has
-- been stopped. A number takes as many rounds as it is for its digits, which is enough. All other loops
-- are structural.
--
-- A Belt or an Express whose pointer to the shared segment is null has `attached` false. Left out: that null
-- pointer in the other classes, permissions of the IPC objects, processes attached to a removed segment,
-- logging and the layout of printed text, sleeping, `execv` in a child, the logs
-- directory, and what `atoi`, `stoi`, `fork` and the random generators return, which are arguments.
pub mod Base
pub mod Shared
pub mod Manager
pub mod Config
pub mod Belt
pub mod Session
pub mod Truck
pub mod Dispatcher
pub mod Express
pub mod Fleet
pub mod Dock
pub mod Terminal
pub mod Worker
pub mod Processes
pub mod Examples
