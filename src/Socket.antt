-- ===== src/Socket.antt =====
-- The socket calls of src/lthread_socket.c. The kernel is a parameter: its state, and what each
-- system call answers in that state.
pub mod File
pub mod Wait
pub mod Transfer
pub mod Open
pub mod Keeps
pub mod Rounds
pub mod Laws
pub mod Vectors
pub mod Line
pub mod Close
