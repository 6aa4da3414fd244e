-- ===== src/Chan.antt =====
-- Channels: src/chan.c and src/chan.h, with the structures of src/lthread_int.h. `Chan.State` has
-- the data, `Chan.Try` one attempt to send or receive, and `Chan.Select` the operations.
pub mod State
pub mod Try
pub mod Select
pub mod Buffer
pub mod Stream
pub mod Refine
pub mod Typed
pub mod Laws
pub mod Wrapped
pub mod Queues
pub mod Leave
