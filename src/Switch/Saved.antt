-- ===== src/Switch/Saved.antt =====
-- What `_switch` of src/lthread.c leaves in the context that it saves, and what it takes from the
-- other.
use lthread.Base.{ℕ, ◌+◌, ◌-◌, ◌%◌, ◌≤◌, ◌<◌, ◌≡◌, ◌≢◌, ◌⊎◌, refl, ◌∙◌, ap, arith, List, [], ◌∷◌}
use lthread.Switch.{Regs, Cpu, u64, write, run, push, save_code, restore_code, switch}

-- The fields of a `struct cpu_ctx` that the assembly uses are at `a` ... `a + 56`; `b` is no such.
abbrev pub Apart : ℕ → ℕ → Type 0
Apart a b = (b + 8 ≤ a) ⊎ (a + 64 ≤ b)

pub write_self : (m : ℕ → ℕ) (p v : ℕ) → write m p v p ≡ v
unfolding write
write_self m p v = ground arith

pub write_other : (m : ℕ → ℕ) (p v q : ℕ) → p ≢ q → write m p v q ≡ m q
unfolding write
write_other m p v q ne = ground arith

-- memory once a caller's registers and stack pointer `s` are saved at `a`
abbrev pub saved : ℕ → ℕ → ℕ → Regs → (ℕ → ℕ) → ℕ → ℕ
saved a s back r m =
    let w0 = write m s back in
    let w1 = write w0 (a + 0) s in
    let w2 = write w1 (a + 8) r.bp in
    let w3 = write w2 (a + 16) back in
    let w4 = write w3 (a + 24) r.bx in
    let w5 = write w4 (a + 32) r.x12 in
    let w6 = write w5 (a + 40) r.x13 in let w7 = write w6 (a + 48) r.x14 in write w7 (a + 56) r.x15

abbrev pub with_args : ℕ → ℕ → Cpu → Cpu
with_args new_ctx cur_ctx c = record c { regs = record c.regs { di = new_ctx; si = cur_ctx } }

abbrev pub after_save : ℕ → ℕ → ℕ → Cpu → Cpu
after_save new_ctx cur_ctx back c = record {
  regs = record c.regs { ax = back; sp = c.regs.sp - 8; di = new_ctx; si = cur_ctx };
  ip = c.ip;
  mem = saved cur_ctx (c.regs.sp - 8) back c.regs c.mem;
}

offset : (a k : ℕ) → k ≤ 56 → a + 64 ≤ u64 → (a + k) % u64 ≡ a + k
offset a k hk h = omega arith

read_back :
    (a s back bp : ℕ) (m : ℕ → ℕ)
    → Apart a s
    → s < u64
    → write (write (write m s back) (a + 0) s) (a + 8) bp ((s + 0) % u64) ≡ back
unfolding write
read_back a s back bp m h lt = ground arith

save_lem :
    (new_ctx cur_ctx back : ℕ) (c : Cpu)
    → cur_ctx + 64 ≤ u64
    → 8 ≤ c.regs.sp
    → c.regs.sp < u64
    → Apart cur_ctx (c.regs.sp - 8)
    → run save_code (push back (with_args new_ctx cur_ctx c)) ≡ after_save new_ctx cur_ctx back c
unfolding save_code
save_lem new_ctx cur_ctx back c hc lo hi apart =
    let pushed : (c.regs.sp + u64 - 8) % u64 ≡ c.regs.sp - 8 = omega arith in
    rw
      (
        save_code,
        pushed,
        offset cur_ctx 0 (omega arith) hc,
        offset cur_ctx 8 (omega arith) hc,
        offset cur_ctx 16 (omega arith) hc,
        offset cur_ctx 24 (omega arith) hc,
        offset cur_ctx 32 (omega arith) hc,
        offset cur_ctx 40 (omega arith) hc,
        offset cur_ctx 48 (omega arith) hc,
        offset cur_ctx 56 (omega arith) hc,
        read_back cur_ctx (c.regs.sp - 8) back c.regs.bp c.mem apart (omega arith),
      )
      refl

-- the registers that a function keeps for its caller
abbrev pub callee_saved : Regs → List ℕ
callee_saved r = r.bx ∷ r.bp ∷ r.sp ∷ r.x12 ∷ r.x13 ∷ r.x14 ∷ r.x15 ∷ []

-- the machine once the context at `a` is restored
abbrev pub restored : ℕ → Cpu → Cpu
restored a c = record {
  regs = record c.regs {
    ax = c.mem (a + 16);
    bx = c.mem (a + 24);
    bp = c.mem (a + 8);
    sp = (c.mem (a + 0) + 8) % u64;
    x12 = c.mem (a + 32);
    x13 = c.mem (a + 40);
    x14 = c.mem (a + 48);
    x15 = c.mem (a + 56);
  };
  ip = c.mem (a + 16);
  mem = write c.mem (c.mem (a + 0)) (c.mem (a + 16));
}

pub restore_lem :
    (c : Cpu)
    → c.regs.di + 64 ≤ u64
    → c.mem (c.regs.di + 0) < u64
    → run restore_code c ≡ restored c.regs.di c
unfolding restore_code
restore_lem c hc lt =
    let a = c.regs.di in
    let slot : (c.mem (c.regs.di + 0) + 0) % u64 ≡ c.mem (c.regs.di + 0) = omega arith in
    rw
      (
        restore_code,
        offset a 0 (omega arith) hc,
        offset a 8 (omega arith) hc,
        offset a 16 (omega arith) hc,
        offset a 24 (omega arith) hc,
        offset a 32 (omega arith) hc,
        offset a 40 (omega arith) hc,
        offset a 48 (omega arith) hc,
        offset a 56 (omega arith) hc,
        slot,
        write_self c.mem (c.mem (a + 0)) (c.mem (a + 16)),
      )
      refl

pub switch_lem :
    (new_ctx cur_ctx back : ℕ) (c : Cpu)
    → new_ctx + 64 ≤ u64
    → cur_ctx + 64 ≤ u64
    → 8 ≤ c.regs.sp
    → c.regs.sp < u64
    → Apart cur_ctx (c.regs.sp - 8)
    → saved cur_ctx (c.regs.sp - 8) back c.regs c.mem (new_ctx + 0) < u64
    → switch new_ctx cur_ctx back c ≡ restored new_ctx (after_save new_ctx cur_ctx back c)
unfolding switch
switch_lem new_ctx cur_ctx back c hn hc lo hi apart slot =
    ap (λ x. run restore_code x) (save_lem new_ctx cur_ctx back c hc lo hi apart)
    ∙ restore_lem (after_save new_ctx cur_ctx back c) hn slot

-- what the `struct cpu_ctx` at `a` holds
abbrev pub context_at : ℕ → (ℕ → ℕ) → List ℕ
context_at a m =
    m (a + 0)
    ∷ m (a + 8)
    ∷ m (a + 16)
    ∷ m (a + 24)
    ∷ m (a + 32)
    ∷ m (a + 40)
    ∷ m (a + 48)
    ∷ m (a + 56)
    ∷ []

pub context_at-write :
    (a : ℕ) (m : ℕ → ℕ) (p v : ℕ) → Apart a p → context_at a (write m p v) ≡ context_at a m
context_at-write a m p v apart =
    rw
      (
        write_other m p v (a + 0) (λ e. ground arith),
        write_other m p v (a + 8) (λ e. ground arith),
        write_other m p v (a + 16) (λ e. ground arith),
        write_other m p v (a + 24) (λ e. ground arith),
        write_other m p v (a + 32) (λ e. ground arith),
        write_other m p v (a + 40) (λ e. ground arith),
        write_other m p v (a + 48) (λ e. ground arith),
        write_other m p v (a + 56) (λ e. ground arith),
      )
      refl

pub context_at-saved :
    (a s back : ℕ) (r : Regs) (m : ℕ → ℕ)
    → context_at a (saved a s back r m)
      ≡ s ∷ r.bp ∷ back ∷ r.bx ∷ r.x12 ∷ r.x13 ∷ r.x14 ∷ r.x15 ∷ []
unfolding write
context_at-saved a s back r m = ground arith

-- saving a context leaves the rest of memory, but for the return address that was pushed
pub saved_other :
    (a s back : ℕ) (r : Regs) (m : ℕ → ℕ) (q : ℕ) → Apart a q → q ≢ s → saved a s back r m q ≡ m q
unfolding write
saved_other a s back r m q apart ne = ground arith
