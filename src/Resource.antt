-- ===== src/Resource.antt =====
-- resource.c: the table of live resources, which clients share, and the thread that fills the
-- queues of a resource while the event loop pauses or closes it.
pub mod Shelf
pub mod Opening
pub mod Ledger
pub mod Threads
pub mod Pausing
pub mod Stopping
mod Tests
