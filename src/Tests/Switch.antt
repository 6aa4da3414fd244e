-- ===== src/Tests/Switch.antt =====
-- The context switch at concrete addresses.
use lthread.Base.{◌≡◌, inl, inr, refl, arith}
use lthread.Switch.{Regs, Cpu, write, switch, init_context, exec_argument}
use lthread.Switch.Saved.{callee_saved}
use lthread.Switch.Back.{switch_roundtrip, switch_memory}
use lthread.Switch.First.{first_entry}

-- A scheduler with its context at 4096 and a thread with its context at 8192 and a stack that ends at
-- 65536; the scheduler runs with the stack pointer 20000.
abbrev sched_regs : Regs
sched_regs = record {
  ax = 1;
  bx = 2;
  bp = 3;
  sp = 20000;
  si = 5;
  di = 6;
  x12 = 7;
  x13 = 8;
  x14 = 9;
  x15 = 10;
}

abbrev started : Cpu
started = record { regs = sched_regs; ip = 11; mem = init_context 77 8192 65536 (λ q. 0) }

first_entry_example :
    ((switch 8192 4096 12 started).ip ≡ 77)
    × ((switch 8192 4096 12 started).regs.di ≡ 8192)
    × ((switch 8192 4096 12 started).regs.sp ≡ 65512)
    × ((switch 8192 4096 12 started).mem 65512 ≡ 0)
    × (exec_argument (switch 8192 4096 12 started) ≡ 8192)
first_entry_example =
    first_entry 77 8192 65536 4096 12 (λ q. 0) started (omega arith) (omega arith)
      (inr (omega arith)) (omega arith) (omega arith) (inl (omega arith)) (inr (omega arith))
      (omega arith) (omega arith) (inr (omega arith)) (inr (omega arith)) (inr (omega arith))
      (λ q fresh. refl)

-- The thread runs, and has the scheduler's context where `switch` left it.
abbrev running : Cpu
running = record {
  regs = record sched_regs { sp = 65000; bx = 40; bp = 41; x12 = 42 };
  ip = 13;
  mem = (switch 8192 4096 12 started).mem;
}

switch_roundtrip_example :
    (callee_saved (switch 4096 8192 14 running).regs ≡ callee_saved sched_regs)
    × ((switch 4096 8192 14 running).ip ≡ 12)
unfolding init_context write
switch_roundtrip_example =
    switch_roundtrip 4096 8192 8192 12 14 started running (omega arith) (omega arith) (omega arith)
      (inl (omega arith)) (inr (omega arith)) (omega arith) (omega arith) (inr (omega arith))
      (inr (omega arith)) (omega arith) (inr (omega arith)) (omega arith) (omega arith)
      (inr (omega arith)) (inr (omega arith)) refl

switch_memory_example : (switch 8192 4096 12 started).mem 65520 ≡ started.mem 65520
unfolding init_context write
switch_memory_example =
    switch_memory 8192 4096 12 65520 started (omega arith) (omega arith) (inl (omega arith))
      (omega arith) (omega arith) (inr (omega arith)) (inr (omega arith)) (omega arith)
      (inr (omega arith)) (λ e. omega arith) (λ e. omega arith)
