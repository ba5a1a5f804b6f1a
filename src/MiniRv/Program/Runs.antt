-- ===== src/MiniRv/Program/Runs.antt =====
-- The loop of main follows every run of the instruction set.
use for_ysyx_self_store_by_h.Base.{
  ℕ, zero, suc, ◌≤◌, ◌≡◌, refl, sym, ap, ◌∙◌, fun_ext, Option, some, none, arith, load32,
}
use for_ysyx_self_store_by_h.MiniRv.Machine.{
  mem_size, State, Message, Outcome, running, exited, fault,
}
use for_ysyx_self_store_by_h.MiniRv.Exec.{fetched, on_fetch, inst_cycle, execute}
use for_ysyx_self_store_by_h.MiniRv.Spec.{Instr, Fits, encode, step, read, view}
use for_ysyx_self_store_by_h.MiniRv.Refine.{inst_cycle-step}
use for_ysyx_self_store_by_h.MiniRv.Boot.{check_pc, iterate, loop}

-- A run of at most `n` instructions from a state, and its outcome: it stops at an instruction that
-- stops the machine, and no instruction before leaves PC above mem_size.
pub data Run : ℕ → State → Outcome → Type 0 where
  done : (s : State) → Run zero s (running s)
  next :
      {n : ℕ} {s t : State} {o : Outcome} (i : Instr)
      → Fits i
      → load32 mem_size s.rom s.pc ≡ some (encode i)
      → step i s ≡ running t
      → t.pc ≤ mem_size
      → Run n t o
      → Run (suc n) s o
  stop :
      {n : ℕ} {s : State} {code : ℕ} {m : Message} (i : Instr)
      → Fits i
      → load32 mem_size s.rom s.pc ≡ some (encode i)
      → step i s ≡ exited code m
      → Run (suc n) s (exited code m)

abbrev pub viewed : State → State
viewed s = record s { regs = read s }

viewed-viewed : (s : State) → viewed (viewed s) ≡ viewed s
viewed-viewed s =
    ap (λ (f : ℕ → ℕ). let t : State = record s { regs = f } in t) (fun_ext (λ r. ground arith))

-- A cycle does not depend on what register 0 holds.
inst_cycle-viewed : (s : State) → inst_cycle (viewed s) ≡ inst_cycle s
unfolding inst_cycle
inst_cycle-viewed s = go (load32 mem_size s.rom s.pc)
  where
    go : (o : Option ℕ) → on_fetch (viewed s) o ≡ on_fetch s o
    go none = refl
    go (some inst) =
        ap (λ (f : ℕ → ℕ). execute (record (fetched s) { regs = f }) inst)
          (fun_ext (λ r. ground arith))

pub inst_cycle-cong : (s t : State) → viewed s ≡ viewed t → inst_cycle s ≡ inst_cycle t
inst_cycle-cong s t e = sym (inst_cycle-viewed s) ∙ ap inst_cycle e ∙ inst_cycle-viewed t

pub running_of_view :
    (o : Outcome) (t : State) → view o ≡ running t → (s : State) × (o ≡ running s) × (viewed s ≡ t)
running_of_view (running s) t e = (s, refl, cc)
running_of_view (exited code m) t e = cc
running_of_view fault t e = cc

pub exited_of_view :
    (o : Outcome) {code : ℕ} {m : Message} → view o ≡ exited code m → o ≡ exited code m
exited_of_view (running s) e = cc
exited_of_view (exited code m) e = e
exited_of_view fault e = cc

-- One cycle that goes on, as seen from outside.
pub iterate-next :
    (s t t' : State) (i : Instr)
    → viewed s ≡ viewed t
    → Fits i
    → load32 mem_size t.rom t.pc ≡ some (encode i)
    → step i t ≡ running t'
    → t'.pc ≤ mem_size
    → (s' : State) × (iterate s ≡ running s') × (viewed s' ≡ viewed t')
unfolding iterate
iterate-next s t t' i e f h st below =
    let seen = ap view (inst_cycle-cong s t e) ∙ inst_cycle-step t i f h ∙ st in
    let (s', goes_on, same) = running_of_view (inst_cycle s) t' seen in
    let pc_same : s'.pc ≡ t'.pc = ap (λ (u : State). u.pc) same in
    (s', ap check_pc goes_on ∙ ground arith, sym (viewed-viewed s') ∙ ap viewed same)

pub loop-exit :
    (n : ℕ) (s : State) {code : ℕ} {m : Message}
    → iterate s ≡ exited code m
    → loop (suc n) s ≡ exited code m
unfolding loop
loop-exit n s e = ground (arith, e)

pub loop-fault : (n : ℕ) (s : State) → iterate s ≡ fault → loop (suc n) s ≡ fault
unfolding loop
loop-fault n s e = ground (arith, e)

loop-stop :
    (s t : State) (i : Instr) {code : ℕ} {m : Message}
    → viewed s ≡ viewed t
    → Fits i
    → load32 mem_size t.rom t.pc ≡ some (encode i)
    → step i t ≡ exited code m
    → (n : ℕ) → loop (suc n) s ≡ exited code m
unfolding iterate
loop-stop s t i {code} {m} e f h st n =
    let seen = ap view (inst_cycle-cong s t e) ∙ inst_cycle-step t i f h ∙ st in
    loop-exit n s (ap check_pc (exited_of_view (inst_cycle s) seen))

pub loop-next : (n : ℕ) (s s' : State) → iterate s ≡ running s' → loop (suc n) s ≡ loop n s'
unfolding loop
loop-next n s s' e = ground (arith, e)

loop-Run_from :
    {n : ℕ} {t : State} {o : Outcome} (s : State)
    → viewed s ≡ viewed t
    → Run n t o
    → view (loop n s) ≡ view o
loop-Run_from s e (done t) = unfold loop in ap running e
loop-Run_from s e (next {n = n} {s = t} {t = t'} i f h st below r) =
    let (s', goes_on, same) = iterate-next s t t' i e f h st below in
    ap view (loop-next n s s' goes_on) ∙ loop-Run_from s' same r
loop-Run_from s e (stop {n = n} {s = t} i f h st) = ap view (loop-stop s t i e f h st n)

-- For every run of the instruction set, of any length, the loop of main has the same outcome after
-- as many rounds, register 0 aside.
pub loop-Run : {n : ℕ} {s : State} {o : Outcome} → Run n s o → view (loop n s) ≡ view o
loop-Run {s = s} r = loop-Run_from s refl r
