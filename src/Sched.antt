-- ===== src/Sched.antt =====
-- The scheduler of src/lthread_sched.c, src/lthread_int.h and the life of a thread in
-- src/lthread.c. A function that yields in its body is two functions here: `_begin` runs up to the
-- yield, and `_end` from the moment at which the scheduler resumes the thread.
pub mod State
pub mod Sleep
pub mod Event
