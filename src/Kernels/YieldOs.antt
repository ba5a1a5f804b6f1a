-- ===== src/Kernels/YieldOs.antt =====
-- The two coroutines of ysyx-workbench/am-kernels/kernels/yield-os/yield-os.c. `C` is Context, and a
-- pointer to a PCB is an index: 0 and 1 into pcb, and 2 for pcb_boot.
use for_ysyx_self_store_by_h.Base.{
  ℕ, ◌+◌, ◌*◌, ◌<◌, ◌≡◌, inl, inr, refl, arith, ltb, ◌==◌, Bool-cases, if◌then◌else◌, update, List,
  [], ◌∷◌,
}

-- The member cp of every PCB, and current.
pub record Pcbs (C : Type 0) : Type 0 where
  pub cp : ℕ → C
  pub current : ℕ

abbrev boot : ℕ
boot = 2

-- What f prints for its argument: "?AB"[arg > 2 ? 0 : arg].
abbrev letter : ℕ → ℕ
letter arg =
    let i = if ltb 2 arg then 0 else arg in if i == 1 then 65 else if i == 2 then 66 else 63

unfoldable schedule : {C : Type 0} → C → Pcbs C → Pcbs C × C
schedule prev s =
    let cp = update s.cp (s.current) prev in
    let next = if s.current == 0 then 1 else 0 in (record { cp = cp; current = next }, cp next)

-- The stack of pcb[i]: STACK_SIZE bytes from the address of the array on.
abbrev stack_of : ℕ → ℕ → ℕ × ℕ
stack_of pcb i = (pcb + i * 32768, pcb + (i + 1) * 32768)

-- main, up to its yield; kcontext belongs to the abstract machine.
unfoldable main : {C : Type 0} → (ℕ × ℕ → ℕ → C) → ℕ → Pcbs C → Pcbs C
main kcontext pcb s = record {
  cp = update (update s.cp 0 (kcontext (stack_of pcb 0) 1)) 1 (kcontext (stack_of pcb 1) 2);
  current = boot;
}

-- The yields, with the context that each hands over: what they resume, in order.
unfoldable yields : {C : Type 0} → List C → Pcbs C → List C
yields [] s = []
yields (prev ∷ later) s = let (s', resumed) = schedule prev s in resumed ∷ yields later s'

-- A coroutine that yields is resumed by the second yield, with the context it has handed over.
schedule-schedule :
    {C : Type 0} (a b : C) (s : Pcbs C)
    → s.current < 2
    → let (s', _) = schedule a s in
      let (s'', resumed) = schedule b s' in (resumed ≡ a) × (s''.current ≡ s.current)
unfolding schedule
schedule-schedule a b s two = elim (Bool-cases (s.current == 0)) [
  | inl first ↦ let e : s.current ≡ 0 = ground (arith, first) in rw e (refl, refl)
  | inr second ↦ let e : s.current ≡ 1 = ground (arith, second) in rw e (refl, refl)
]

-- The yields from main resume the two in turn, at first where kcontext lets them begin.
main-yields :
    {C : Type 0} (kcontext : ℕ × ℕ → ℕ → C) (pcb : ℕ) (s : Pcbs C) (a b c d : C)
    → yields (a ∷ b ∷ c ∷ d ∷ []) (main kcontext pcb s)
      ≡ kcontext (stack_of pcb 0) 1 ∷ kcontext (stack_of pcb 1) 2 ∷ b ∷ c ∷ []
unfolding yields main schedule
main-yields kcontext pcb s a b c d = refl
