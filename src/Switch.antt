-- ===== src/Switch.antt =====
-- The context switch of src/lthread.c: the assembly of `_switch` for x86_64, on a machine that runs the
-- instructions it uses, and the stack and context that `_lthread_init` sets up.
pub mod Saved
pub mod Back
pub mod First
use lthread.Base.{ℕ, zero, suc, ◌+◌, ◌-◌, ◌%◌, ◌^◌, List, [], ◌∷◌, update}

-- The registers that the code and its callers use.
pub data Reg : Type 0 where
  rax rbx rbp rsp rsi rdi r12 r13 r14 r15 : Reg

pub record Regs : Type 0 where
  pub ax : ℕ
  pub bx : ℕ
  pub bp : ℕ
  pub sp : ℕ
  pub si : ℕ
  pub di : ℕ
  pub x12 : ℕ
  pub x13 : ℕ
  pub x14 : ℕ
  pub x15 : ℕ

-- `mem` has the word at each address. Code that reads a word at one address and writes one at another
-- that overlaps it is outside the model: all addresses below are multiples of the word size apart.
pub record Cpu : Type 0 where
  pub regs : Regs
  pub ip : ℕ
  pub mem : ℕ → ℕ

abbrev pub get_reg : Reg → Regs → ℕ
get_reg rax r = r.ax
get_reg rbx r = r.bx
get_reg rbp r = r.bp
get_reg rsp r = r.sp
get_reg rsi r = r.si
get_reg rdi r = r.di
get_reg r12 r = r.x12
get_reg r13 r = r.x13
get_reg r14 r = r.x14
get_reg r15 r = r.x15

abbrev pub set_reg : Reg → ℕ → Regs → Regs
set_reg rax v r = record r { ax = v }
set_reg rbx v r = record r { bx = v }
set_reg rbp v r = record r { bp = v }
set_reg rsp v r = record r { sp = v }
set_reg rsi v r = record r { si = v }
set_reg rdi v r = record r { di = v }
set_reg r12 v r = record r { x12 = v }
set_reg r13 v r = record r { x13 = v }
set_reg r14 v r = record r { x14 = v }
set_reg r15 v r = record r { x15 = v }

-- `store r k b` is `mov %r, k(%b)`, and `load k b r` is `mov k(%b), %r`.
pub data Instr : Type 0 where
  store : Reg → ℕ → Reg → Instr
  load : ℕ → Reg → Reg → Instr
  ret : Instr

-- a write of the word `v` at the address `p`
unfoldable pub write : (ℕ → ℕ) → ℕ → ℕ → ℕ → ℕ
write m p v = update m p v

abbrev pub u64 : ℕ
u64 = 2 ^ 64

abbrev pub addr : ℕ → Reg → Cpu → ℕ
addr k b c = (get_reg b c.regs + k) % u64

abbrev pub step : Instr → Cpu → Cpu
step (store r k b) c = record c { mem = write c.mem (addr k b c) (get_reg r c.regs) }
step (load k b r) c = record c { regs = set_reg r (c.mem (addr k b c)) c.regs }
step ret c = record c {
  ip = c.mem (addr 0 rsp c);
  regs = record c.regs { sp = (c.regs.sp + 8) % u64 };
}

abbrev pub run : List Instr → Cpu → Cpu
run [] c = c
run (i ∷ is) c = run is (step i c)

-- A word is pushed, as by `call` or `push`.
abbrev pub push : ℕ → Cpu → Cpu
push v c =
    let sp' = (c.regs.sp + u64 - 8) % u64 in
    record c { regs = record c.regs { sp = sp' }; mem = write c.mem sp' v }

-- The assembly for x86_64: the current context is saved, and the other restored.
unfoldable pub save_code : List Instr
save_code =
    store rsp 0 rsi
    ∷ store rbp 8 rsi
    ∷ load 0 rsp rax
    ∷ store rax 16 rsi
    ∷ store rbx 24 rsi
    ∷ store r12 32 rsi
    ∷ store r13 40 rsi
    ∷ store r14 48 rsi
    ∷ store r15 56 rsi
    ∷ []

unfoldable pub restore_code : List Instr
restore_code =
    load 56 rdi r15
    ∷ load 48 rdi r14
    ∷ load 40 rdi r13
    ∷ load 32 rdi r12
    ∷ load 24 rdi rbx
    ∷ load 8 rdi rbp
    ∷ load 0 rdi rsp
    ∷ load 16 rdi rax
    ∷ store rax 0 rsp
    ∷ ret
    ∷ []

-- A call `_switch(new_ctx, cur_ctx)` that is to return to `back`: the arguments are in %rdi and %rsi.
unfoldable pub switch : ℕ → ℕ → ℕ → Cpu → Cpu
unfolding save_code restore_code
switch new_ctx cur_ctx back c =
    run restore_code
      (run save_code (push back (record c { regs = record c.regs { di = new_ctx; si = cur_ctx } })))

-- `_lthread_init` of a thread at `lt` whose stack ends at `top`; `exec` is the address of `_exec`.
-- `ctx` is the first field of the thread.
unfoldable pub init_context : ℕ → ℕ → ℕ → (ℕ → ℕ) → ℕ → ℕ
init_context exec lt top mem =
    let stacked = write (write mem (top - 24) 0) (top - 16) lt in
    write (write (write stacked lt (top - 32)) (lt + 8) (top - 24)) (lt + 16) exec

-- `_exec` once the compiler's code has set up its frame: the word at 16(%rbp), which it takes for its
-- argument when the compiler is LLVM.
unfoldable pub exec_argument : Cpu → ℕ
exec_argument c =
    let entered = push c.regs.bp c in
    let framed = record entered { regs = record entered.regs { bp = entered.regs.sp } } in
    framed.mem (addr 16 rbp framed)
