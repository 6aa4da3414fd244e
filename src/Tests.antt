-- ===== src/Tests.antt =====
-- Theorems at concrete inputs, and runs of the model. The trees are sorted lists.
pub mod Fifo
pub mod Sched
pub mod Sync
pub mod Net
pub mod Dns
pub mod Work
pub mod Loop
pub mod Stream
pub mod Select
pub mod Answer
pub mod Switch
pub mod Stack
pub mod Kqueue
pub mod Pool
pub mod File
