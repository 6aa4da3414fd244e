-- ===== src/Switch/Back.antt =====
-- A lightweight thread that is switched away from and later resumed, by `_switch` of src/lthread.c.
use lthread.Base.{
  ℕ, ◌+◌, ◌-◌, ◌%◌, ◌≤◌, ◌<◌, ◌≡◌, ◌≢◌, ◌⊎◌, refl, ◌∙◌, sym, ap, subst, arith, List, [], ◌∷◌,
}
use lthread.Switch.{Regs, Cpu, u64, switch}
use lthread.Switch.Saved.{
  Apart, saved, callee_saved, context_at, context_at-write, context_at-saved, saved_other,
  switch_lem, write_other,
}

-- what a context gives the registers, and where it goes on
abbrev resumed_regs : List ℕ → List ℕ
resumed_regs (s ∷ bp ∷ ip ∷ bx ∷ y12 ∷ y13 ∷ y14 ∷ y15 ∷ []) =
    bx ∷ bp ∷ (s + 8) % u64 ∷ y12 ∷ y13 ∷ y14 ∷ y15 ∷ []
resumed_regs _ = []

abbrev third : List ℕ → ℕ
third (s ∷ bp ∷ ip ∷ l) = ip
third _ = 0

abbrev pub first : List ℕ → ℕ
first (s ∷ l) = s
first _ = 0

-- Two contexts share no field.
abbrev pub Separate : ℕ → ℕ → Type 0
Separate a b = (b + 64 ≤ a) ⊎ (a + 64 ≤ b)

-- the context of another thread while one is saved
pub saved_context :
    (a d s back : ℕ) (r : Regs) (m : ℕ → ℕ)
    → Separate a d
    → Apart a s
    → context_at a (saved d s back r m) ≡ context_at a m
saved_context a d s back r m sep apart =
    rw
      (
        saved_other d s back r m (a + 0) (ground arith) (λ e. ground arith),
        saved_other d s back r m (a + 8) (ground arith) (λ e. ground arith),
        saved_other d s back r m (a + 16) (ground arith) (λ e. ground arith),
        saved_other d s back r m (a + 24) (ground arith) (λ e. ground arith),
        saved_other d s back r m (a + 32) (ground arith) (λ e. ground arith),
        saved_other d s back r m (a + 40) (ground arith) (λ e. ground arith),
        saved_other d s back r m (a + 48) (ground arith) (λ e. ground arith),
        saved_other d s back r m (a + 56) (ground arith) (λ e. ground arith),
      )
      refl

-- the switch away: what is left at `a`
pub away_lem :
    (a b back : ℕ) (c : Cpu)
    → a + 64 ≤ u64
    → b + 64 ≤ u64
    → 8 ≤ c.regs.sp
    → c.regs.sp < u64
    → Apart a (c.regs.sp - 8)
    → Apart b (c.regs.sp - 8)
    → Separate b a
    → c.mem (b + 0) < u64
    → Apart a (c.mem (b + 0))
    → context_at a (switch b a back c).mem
      ≡ (c.regs.sp - 8)
        ∷ c.regs.bp
        ∷ back
        ∷ c.regs.bx
        ∷ c.regs.x12
        ∷ c.regs.x13
        ∷ c.regs.x14
        ∷ c.regs.x15
        ∷ []
away_lem a b back c ha hb lo hi apart apart_b sep slot apart_slot =
    let at_b = ap first (saved_context b a (c.regs.sp - 8) back c.regs c.mem sep apart_b) in
    let m = saved a (c.regs.sp - 8) back c.regs c.mem in
    ap (λ x. context_at a x.mem)
      (switch_lem b a back c hb ha lo hi apart (subst (λ x. x < u64) (sym at_b) slot))
    ∙ context_at-write a m (m (b + 0)) (m (b + 16)) (subst (λ x. Apart a x) (sym at_b) apart_slot)
    ∙ context_at-saved a (c.regs.sp - 8) back c.regs c.mem

-- the switch back: a context that holds `s` and so on
back_lem :
    (a d back back2 : ℕ) (r : Regs) (c2 : Cpu)
    → a + 64 ≤ u64
    → d + 64 ≤ u64
    → 8 ≤ r.sp
    → r.sp < u64
    → 8 ≤ c2.regs.sp
    → c2.regs.sp < u64
    → Apart d (c2.regs.sp - 8)
    → Apart a (c2.regs.sp - 8)
    → Separate a d
    → context_at a c2.mem ≡ (r.sp - 8) ∷ r.bp ∷ back ∷ r.bx ∷ r.x12 ∷ r.x13 ∷ r.x14 ∷ r.x15 ∷ []
    → (callee_saved (switch a d back2 c2).regs ≡ callee_saved r) × ((switch a d back2 c2).ip ≡ back)
back_lem a d back back2 r c2 ha hd lo hi lo2 hi2 apart_d apart_a sep e =
    let e' = saved_context a d (c2.regs.sp - 8) back2 c2.regs c2.mem sep apart_a ∙ e in
    let slot : saved d (c2.regs.sp - 8) back2 c2.regs c2.mem (a + 0) < u64 =
      subst (λ x. x < u64) (sym (ap first e')) (omega arith) in
    let sw = switch_lem a d back2 c2 ha hd lo2 hi2 apart_d slot in
    let top : (r.sp - 8 + 8) % u64 ≡ r.sp = omega arith in
    (
      ap (λ x. callee_saved x.regs) sw ∙ ap resumed_regs e' ∙ (rw (top) refl),
      ap (λ x. x.ip) sw ∙ ap third e',
    )

-- Let a thread that runs with a stack pointer of 8 or more call _switch to save its context at `a`
-- and resume the one at `b`, and let its caller go on at `back`. The two contexts, the stack slot
-- of the return address and the slot where the other context resumes do not overlap `a`, the slot
-- of the return address does not overlap `b`, and no address wraps. Whatever runs then, when a
-- later call of _switch saves its own context at `d`, with `d` and its return address outside `a`,
-- and resumes the one at `a`, which still holds what the first call left there, then rbx, rbp, rsp
-- and r12 to r15 are as at the first call, and execution goes on at `back`.
pub switch_roundtrip :
    (a b d back back2 : ℕ) (c c2 : Cpu)
    → a + 64 ≤ u64
    → b + 64 ≤ u64
    → d + 64 ≤ u64
    → Separate b a
    → Separate a d
    → 8 ≤ c.regs.sp
    → c.regs.sp < u64
    → Apart a (c.regs.sp - 8)
    → Apart b (c.regs.sp - 8)
    → c.mem (b + 0) < u64
    → Apart a (c.mem (b + 0))
    → 8 ≤ c2.regs.sp
    → c2.regs.sp < u64
    → Apart d (c2.regs.sp - 8)
    → Apart a (c2.regs.sp - 8)
    → context_at a c2.mem ≡ context_at a (switch b a back c).mem
    → (callee_saved (switch a d back2 c2).regs ≡ callee_saved c.regs)
      × ((switch a d back2 c2).ip ≡ back)
switch_roundtrip a b d back back2 c c2 ha hb hd sep sep_d lo hi apart apart_b slot apart_slot lo2
      hi2 apart_d apart_a kept =
    back_lem a d back back2 c.regs c2 ha hd lo hi lo2 hi2 apart_d apart_a sep_d
      (kept ∙ away_lem a b back c ha hb lo hi apart apart_b sep slot apart_slot)

-- A call of _switch writes memory at three places only: the context that it saves, the stack slot
-- of its return address, and the stack slot where the other context resumes. Any word outside these
-- is unchanged, where the contexts are apart from each other and from the slot of the return
-- address, and no address wraps.
pub switch_memory :
    (new_ctx cur_ctx back q : ℕ) (c : Cpu)
    → new_ctx + 64 ≤ u64
    → cur_ctx + 64 ≤ u64
    → Separate new_ctx cur_ctx
    → 8 ≤ c.regs.sp
    → c.regs.sp < u64
    → Apart cur_ctx (c.regs.sp - 8)
    → Apart new_ctx (c.regs.sp - 8)
    → c.mem (new_ctx + 0) < u64
    → Apart cur_ctx q
    → q ≢ c.regs.sp - 8
    → q ≢ c.mem (new_ctx + 0)
    → (switch new_ctx cur_ctx back c).mem q ≡ c.mem q
switch_memory new_ctx cur_ctx back q c hn hc sep lo hi apart apart_n slot apart_q ne ne_slot =
    let s = c.regs.sp - 8 in
    let at_n : saved cur_ctx s back c.regs c.mem (new_ctx + 0) ≡ c.mem (new_ctx + 0) =
      ap first (saved_context new_ctx cur_ctx s back c.regs c.mem sep apart_n) in
    let m = saved cur_ctx s back c.regs c.mem in
    ap (λ x. x.mem q)
      (switch_lem new_ctx cur_ctx back c hn hc lo hi apart (subst (λ x. x < u64) (sym at_n) slot))
    ∙ write_other m (m (new_ctx + 0)) (m (new_ctx + 16)) q (λ e. ne_slot (sym e ∙ at_n))
    ∙ saved_other cur_ctx s back c.regs c.mem q apart_q ne
