-- ===== src/Sisa/Bounds.antt =====
-- The sISA emulator never leaves its arrays, whatever program its memory holds.
use for_ysyx_self_store_by_h.Base.{
  ℕ, zero, suc, ◌==◌, ◌++◌, not, ◌+◌, ◌^◌, ◌<◌, ◌≤◌, ◌≡◌, refl, ◌∙◌, some, List, [], ◌∷◌, arith,
  length, get_elem?, set, length-set, true, false, Bool, if◌then◌else◌, bits, u8,
}
use for_ysyx_self_store_by_h.Sisa.Machine.{
  Line, State, inst_cycle, execute, exec_r, exec_s, exec_i, reg,
}

abbrev pub All : List ℕ → Type 0
All [] = Unit
All (x ∷ xs) = (x < 2 ^ 8) × All xs

pub record IsValid (s : State) : Type 0 where
  pub four_regs : length s.regs ≡ 4
  pub sixteen_bytes : length s.memory ≡ 16
  pub reg_bytes : All s.regs
  pub pc_bound : s.pc ≤ 16

get_elem?-in : (xs : List ℕ) (i : ℕ) → i < length xs → (x : ℕ) × (get_elem? xs i ≡ some x)
get_elem?-in [] i h = elim h [ ]
get_elem?-in (x ∷ xs) zero h = (x, refl)
get_elem?-in (x ∷ xs) (suc i) h = get_elem?-in xs i (omega arith)

All-set : (xs : List ℕ) (i v : ℕ) → All xs → v < 2 ^ 8 → All (set xs i v)
All-set [] i v h b = tt
All-set (x ∷ xs) zero v h b = (b, h.1)
All-set (x ∷ xs) (suc i) v h b = (h.0, All-set xs i v h.1 b)

set-IsValid :
    (s : State) (r v : ℕ) → v < 2 ^ 8 → IsValid s → IsValid (record s { regs = set s.regs r v })
set-IsValid s r v b ok = record {
  four_regs = length-set s.regs r v ∙ ok.four_regs;
  sixteen_bytes = ok.sixteen_bytes;
  reg_bytes = All-set s.regs r v ok.reg_bytes b;
  pc_bound = ok.pc_bound;
}

if-IsValid : (b : Bool) (s t : State) → IsValid s → IsValid t → IsValid (if b then s else t)
if-IsValid true s t p q = p
if-IsValid false s t p q = q

module _ (s : State) (ok : IsValid s) where
  print-IsValid : (line : Line) → IsValid (record s { output = s.output ++ line ∷ [] })
  print-IsValid line = record {
    four_regs = ok.four_regs;
    sixteen_bytes = ok.sixteen_bytes;
    reg_bytes = ok.reg_bytes;
    pc_bound = ok.pc_bound;
  }

  jump-IsValid : (target : ℕ) → target ≤ 16 → IsValid (record s { pc = target })
  jump-IsValid target h = record {
    four_regs = ok.four_regs;
    sixteen_bytes = ok.sixteen_bytes;
    reg_bytes = ok.reg_bytes;
    pc_bound = h;
  }

  execute-IsValid : (inst : ℕ) → IsValid (execute s inst)
  execute-IsValid inst =
      let opcode = bits inst 6 2 in
      if-IsValid (opcode == 0) (exec_r s inst) _ (set-IsValid s _ _ (omega arith) ok) (
        if-IsValid (opcode == 1) (exec_s s inst) _
          (if-IsValid (bits inst 0 4 == 0) _ s (print-IsValid _) ok)
          (if-IsValid (opcode == 2) (exec_i s inst) _ (set-IsValid s _ _ (omega arith) ok) (
            if-IsValid (not (reg s (bits inst 0 2) == reg s 0)) _ s
              (jump-IsValid (bits inst 2 4) (omega arith)) ok)))

-- From a valid state below PC 16 a cycle is in range, and leads to a valid state.
pub inst_cycle-IsValid :
    (s : State) → IsValid s → s.pc < 16 → (t : State) × (inst_cycle s ≡ some t) × IsValid t
unfolding inst_cycle
inst_cycle-IsValid s ok below =
    let (inst, found) = get_elem?-in s.memory s.pc (omega (arith, ok.sixteen_bytes)) in
    let moved = record s { pc = u8 (s.pc + 1) } in
    (
      execute moved inst,
      ground (arith, found),
      execute-IsValid moved (jump-IsValid s ok (u8 (s.pc + 1)) (omega arith)) inst,
    )
