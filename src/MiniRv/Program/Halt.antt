-- ===== src/MiniRv/Program/Halt.antt =====
-- What ends the loop of the minirv emulator: the ebreak that main patches into ROM, and the check
-- on PC.
use for_ysyx_self_store_by_h.Base.{
  ℕ, zero, suc, ◌^◌, ◌<◌, ◌≤◌, ◌+◌, ◌≡◌, refl, ap, subst, ◌∙◌, some, arith, ltb, ◌==◌, load32,
  if◌then◌else◌, put_word, word_at-put_word, load32-some, load32-none, IsBytes, List, [], ◌∷◌,
  put_word-IsBytes, inl, inr, Bool-cases,
}
use for_ysyx_self_store_by_h.MiniRv.Machine.{
  mem_size, State, Outcome, running, exited, fault, hit_good_trap, hit_bad_trap,
}
use for_ysyx_self_store_by_h.MiniRv.Exec.{on_fetch, inst_cycle}
use for_ysyx_self_store_by_h.MiniRv.Range.{IsInRange, Keeps, inst_cycle-Keeps}
use for_ysyx_self_store_by_h.MiniRv.Spec.{ebreak, read, view}
use for_ysyx_self_store_by_h.MiniRv.Refine.{inst_cycle-step}
use for_ysyx_self_store_by_h.MiniRv.Boot.{check_pc, iterate, loop, load_image, image, ebreak_inst}
use for_ysyx_self_store_by_h.MiniRv.Program.Runs.{loop-exit, loop-fault, loop-next, exited_of_view}

-- The loop keeps the range and the ROM, as each cycle does.
iterate-Keeps : (s : State) → IsInRange s → Keeps s.rom (iterate s)
unfolding iterate
iterate-Keeps s ok = go (inst_cycle s) (inst_cycle-Keeps s ok)
  where
    go : (o : Outcome) → Keeps s.rom o → Keeps s.rom (check_pc o)
    go (running t) k = elim (Bool-cases (ltb mem_size t.pc)) [ inl e ↦ rw e tt | inr e ↦ rw e k ]
    go (exited code m) k = tt
    go fault k = tt

-- However many rounds the loop makes, a state that it goes on with is in range and has the ROM that
-- it started with.
pub loop-Keeps : (n : ℕ) (s : State) → IsInRange s → Keeps s.rom (loop n s)
unfolding loop
loop-Keeps zero s ok = (ok, refl)
loop-Keeps (suc n) s ok = go (loop-Keeps n) (iterate s) (iterate-Keeps s ok)
  where
    go :
        ((t : State) → IsInRange t → Keeps t.rom (loop n t))
        → (o : Outcome) → Keeps s.rom o
        → Keeps s.rom
            (elim o [ running s' ↦ loop n s' | exited code m ↦ exited code m | fault ↦ fault ])
    go ih (running t) k = subst (λ rom. Keeps rom (loop n t)) k.1 (ih t k.0)
    go ih (exited code m) k = tt
    go ih fault k = tt

-- A file of bytes, byte by byte.
abbrev pub AllBytes : List ℕ → Type 0
AllBytes [] = Unit
AllBytes (b ∷ bs) = (b < 2 ^ 8) × AllBytes bs

pub image-IsBytes : (file : List ℕ) → AllBytes file → IsBytes (image file)
image-IsBytes [] h i = omega arith
image-IsBytes (b ∷ bs) h zero = h.0
image-IsBytes (b ∷ bs) h (suc i) = image-IsBytes bs h.1 i

load_image-IsInRange :
    (file : List ℕ) (halt : ℕ) → IsBytes (image file) → IsInRange (load_image file halt)
unfolding load_image
load_image-IsInRange file halt b = record {
  regs = λ r. omega arith;
  memory = b;
  rom = put_word-IsBytes (image file) halt ebreak_inst b;
  pc = omega arith;
}

-- The verdict of the ebreak on register a0.
abbrev pub verdict : State → Outcome
verdict s = exited 0 (if read s 10 == 0 then hit_good_trap else hit_bad_trap)

-- When main has loaded a file of bytes and patched the word at `halt`, and the loop has come to
-- `halt`, whatever it stored on the way, then the next round ends main with code 0: with the good
-- trap if a0 is 0, and with the bad trap otherwise.
loop-halt :
    (n m : ℕ) (file : List ℕ) (halt : ℕ) (s : State)
    → IsBytes (image file)
    → halt + 4 ≤ mem_size
    → loop n (load_image file halt) ≡ running s
    → s.pc ≡ halt
    → loop (suc m) s ≡ verdict s
unfolding iterate
loop-halt n m file halt s bytes fits ran at_halt = loop-exit m s (ap check_pc stops)
  where
    kept : Keeps (load_image file halt).rom (running s)
    kept = rw ran at (loop-Keeps n (load_image file halt) (load_image-IsInRange file halt bytes))

    same_rom : s.rom ≡ put_word (image file) halt ebreak_inst
    same_rom = unfold load_image in kept.1

    word : load32 mem_size s.rom s.pc ≡ some ebreak_inst
    word =
        rw (same_rom, at_halt)
          (load32-some mem_size _ halt fits
            ∙ ap some (word_at-put_word (image file) halt ebreak_inst (omega arith)))

    seen : view (inst_cycle s) ≡ verdict s
    seen = inst_cycle-step s ebreak tt word

    stops : inst_cycle s ≡ verdict s
    stops = exited_of_view (inst_cycle s) seen

-- If a cycle leaves PC at mem_size, or less than a word below it, then the check on PC lets it
-- pass, and the next round reads ROM out of range.
loop-overrun :
    (n : ℕ) (s t : State)
    → inst_cycle s ≡ running t
    → mem_size < t.pc + 4
    → t.pc ≤ mem_size
    → loop (suc (suc n)) s ≡ fault
unfolding iterate inst_cycle
loop-overrun n s t cycle past below =
    loop-next (suc n) s t (ap check_pc cycle ∙ passes)
    ∙ loop-fault n t (ap (λ o. check_pc (on_fetch t o)) (load32-none mem_size t.rom t.pc past))
  where
    passes : check_pc (running t) ≡ running t
    passes = ground arith
