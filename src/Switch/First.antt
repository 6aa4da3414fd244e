-- ===== src/Switch/First.antt =====
-- The first switch to a lightweight thread, to the context that `_lthread_init` of src/lthread.c made.
use lthread.Base.{ℕ, ◌+◌, ◌-◌, ◌%◌, ◌≤◌, ◌<◌, ◌≡◌, ◌⊎◌, ◌∙◌, sym, ap, subst, arith}
use lthread.Switch.{Cpu, u64, write, switch, init_context, exec_argument}
use lthread.Switch.Saved.{Apart, saved, saved_other, switch_lem, write_other}
use lthread.Switch.Back.{Separate, switch_memory}

-- The words that `_lthread_init` wrote are those of the thread at `lt`, whose stack ends at `top`.
abbrev pub Fresh : ℕ → ℕ → ℕ → Type 0
Fresh lt top q = ((lt ≤ q) × (q ≤ lt + 16)) ⊎ ((top - 24 ≤ q) × (q ≤ top - 16))

init_words :
    (exec lt top : ℕ) (m : ℕ → ℕ)
    → 32 ≤ top
    → (top ≤ lt) ⊎ (lt + 64 ≤ top - 32)
    → (init_context exec lt top m (lt + 0) ≡ top - 32)
      × (init_context exec lt top m (lt + 8) ≡ top - 24)
      × (init_context exec lt top m (lt + 16) ≡ exec)
      × (init_context exec lt top m (top - 24) ≡ 0)
      × (init_context exec lt top m (top - 16) ≡ lt)
unfolding init_context write
init_words exec lt top m lo far = ground arith

exec_argument_lem :
    (top : ℕ) (c : Cpu)
    → 32 ≤ top
    → top < u64
    → c.regs.sp ≡ top - 24
    → exec_argument c ≡ c.mem (top - 16)
unfolding exec_argument
exec_argument_lem top c lo hi e =
    let pushed : (c.regs.sp + u64 - 8) % u64 ≡ top - 32 = omega arith in
    let read : (top - 32 + 16) % u64 ≡ top - 16 = omega arith in
    rw (exec_argument, pushed, read)
      (write_other c.mem (top - 32) c.regs.bp (top - 16) (λ x. ground arith))

-- Let a thread at `lt` have a stack that ends at `top`, and let memory at its context and at the
-- end of its stack be as _lthread_init left it. When a scheduler whose context and return address
-- overlap neither the thread nor the last 32 bytes of its stack calls _switch to it for the first
-- time, no address wrapping, then execution goes on at _exec with the thread in rdi, the stack
-- pointer 24 below the top and a return address of NULL there; and once _exec has set up its frame,
-- the word at 16(%rbp) is the thread too.
pub first_entry :
    (exec lt top sched back : ℕ) (m : ℕ → ℕ) (c : Cpu)
    → 32 ≤ top
    → top < u64
    → (top ≤ lt) ⊎ (lt + 64 ≤ top - 32)
    → lt + 64 ≤ u64
    → sched + 64 ≤ u64
    → Separate lt sched
    → (top ≤ sched) ⊎ (sched + 64 ≤ top - 32)
    → 8 ≤ c.regs.sp
    → c.regs.sp < u64
    → Apart sched (c.regs.sp - 8)
    → Apart lt (c.regs.sp - 8)
    → (top ≤ c.regs.sp - 8) ⊎ (c.regs.sp ≤ top - 32)
    → ((q : ℕ) → Fresh lt top q → c.mem q ≡ init_context exec lt top m q)
    → ((switch lt sched back c).ip ≡ exec)
      × ((switch lt sched back c).regs.di ≡ lt)
      × ((switch lt sched back c).regs.sp ≡ top - 24)
      × ((switch lt sched back c).mem (top - 24) ≡ 0)
      × (exec_argument (switch lt sched back c) ≡ lt)
first_entry exec lt top sched back m c ht hu own hl hs sep sep_top lo hi apart apart_l stack kept =
    let (i_sp, i_bp, i_ip, i_ret, i_lt) = init_words exec lt top m ht own in
    let s = c.regs.sp - 8 in
    let w0 : c.mem (lt + 0) ≡ top - 32 = kept (lt + 0) (ground arith) ∙ i_sp in
    let w8 : c.mem (lt + 8) ≡ top - 24 = kept (lt + 8) (ground arith) ∙ i_bp in
    let w16 : c.mem (lt + 16) ≡ exec = kept (lt + 16) (ground arith) ∙ i_ip in
    let v0 : saved sched s back c.regs c.mem (lt + 0) ≡ top - 32 =
      saved_other sched s back c.regs c.mem (lt + 0) (ground arith) (λ e. ground arith) ∙ w0 in
    let v8 : saved sched s back c.regs c.mem (lt + 8) ≡ top - 24 =
      saved_other sched s back c.regs c.mem (lt + 8) (ground arith) (λ e. ground arith) ∙ w8 in
    let v16 : saved sched s back c.regs c.mem (lt + 16) ≡ exec =
      saved_other sched s back c.regs c.mem (lt + 16) (ground arith) (λ e. ground arith) ∙ w16 in
    let sw =
      switch_lem lt sched back c hl hs lo hi apart (subst (λ x. x < u64) (sym v0) (omega arith)) in
    let slot = subst (λ x. x < u64) (sym w0) (omega arith) in
    let e_sp : (switch lt sched back c).regs.sp ≡ top - 24 =
      ap (λ x. x.regs.sp) sw ∙ ap (λ x. (x + 8) % u64) v0 ∙ omega arith in
    let e_ret : (switch lt sched back c).mem (top - 24) ≡ 0 =
      switch_memory lt sched back (top - 24) c hl hs sep lo hi apart apart_l slot (ground arith)
        (λ e. ground arith) (λ e. ground arith)
      ∙ kept (top - 24) (ground arith)
      ∙ i_ret in
    let e_lt : (switch lt sched back c).mem (top - 16) ≡ lt =
      switch_memory lt sched back (top - 16) c hl hs sep lo hi apart apart_l slot (ground arith)
        (λ e. ground arith) (λ e. ground arith)
      ∙ kept (top - 16) (ground arith)
      ∙ i_lt in
    (
      ap (λ x. x.ip) sw ∙ v16,
      ap (λ x. x.regs.di) sw,
      e_sp,
      e_ret,
      exec_argument_lem top (switch lt sched back c) ht hu e_sp ∙ e_lt,
    )
