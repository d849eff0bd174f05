-- ===== src/Fleet.antt =====
-- include/Truck.h with include/Dispatcher.h: a truck and the dispatcher over the message queue.
pub mod Stale
