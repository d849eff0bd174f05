-- ===== src/Examples.antt =====
-- The theorems of the other modules at concrete inputs, on whole millionths in place of `double`.
mod Data
mod Belts
mod Sessions
mod Docks
mod Guards
mod Consoles
mod Trails
mod Threads
mod Piers
mod Systems
mod Runs
