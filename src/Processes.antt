-- ===== src/Processes.antt =====
-- src/main*.cpp: the processes. Each main connects, logs a session in, runs its part and logs out in the
-- destructor of a guard. What the user gives on the command line is the number that `atoi` or `stoi` makes
-- of it. Processes/Handlers has the signal handlers of the worker; those of the other loops only set a flag
-- that the loop tests, and its tests are in the arguments.
pub mod Names
pub mod Handlers
pub mod Guard
pub mod Mains
pub mod Master
pub mod Sessions
pub mod Shutdown
pub mod Orders
pub mod Pipeline
