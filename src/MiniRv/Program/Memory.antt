-- ===== src/MiniRv/Program/Memory.antt =====
-- What the minirv emulator stores, it loads.
use for_ysyx_self_store_by_h.Base.{
  ℕ, ◌^◌, ◌<◌, ◌≤◌, ◌+◌, ◌≡◌, refl, ap, ◌∙◌, some, arith, load32, word_at-put_word, load32-some,
  store32, put_word,
}
use for_ysyx_self_store_by_h.MiniRv.Machine.{mem_size, State, running}
use for_ysyx_self_store_by_h.MiniRv.Spec.{
  Fits, encode, step, read, lw, sw, offset_by, next_pc, loaded, write_back,
}
use for_ysyx_self_store_by_h.MiniRv.Boot.{loop}
use for_ysyx_self_store_by_h.MiniRv.Program.Runs.{iterate-next, loop-next}

module _ (s : State) (rd rs1 rs2 imm : ℕ) where
  abbrev address : ℕ
  address = offset_by s rs1 imm

  -- After the store, and after the load.
  abbrev after_store : State
  after_store = record s {
    regs = read s;
    memory = put_word s.memory address (read s rs2);
    pc = next_pc s;
  }

  abbrev after_load : State
  after_load = write_back after_store rd (read s rs2) (next_pc after_store)

  step-sw : address + 4 ≤ mem_size → step (sw rs2 rs1 imm) s ≡ running after_store
  unfolding store32
  step-sw fits = ground arith

  step-lw :
      address + 4 ≤ mem_size
      → read s rs2 < 2 ^ 32
      → step (lw rd rs1 imm) after_store ≡ running after_load
  step-lw fits small =
      ap (λ a. loaded after_store rd (load32 mem_size after_store.memory a)) same_address
      ∙ ap (loaded after_store rd) again
    where
      same_address : offset_by after_store rs1 imm ≡ address
      same_address = ground arith

      again : load32 mem_size after_store.memory address ≡ some (read s rs2)
      again =
          load32-some mem_size after_store.memory address fits
          ∙ ap some (word_at-put_word s.memory address (read s rs2) small)

  -- If sw and then lw, with one address that is in range, are the next two instructions and PC stays
  -- within bounds, then after two rounds the loop goes on with the word of `rs2` in `rd`, unless
  -- `rd` is register 0.
  loop-sw-lw :
      0 < rd
      → Fits (sw rs2 rs1 imm)
      → Fits (lw rd rs1 imm)
      → load32 mem_size s.rom s.pc ≡ some (encode (sw rs2 rs1 imm))
      → load32 mem_size s.rom (s.pc + 4) ≡ some (encode (lw rd rs1 imm))
      → address + 4 ≤ mem_size
      → s.regs rs2 < 2 ^ 32
      → s.pc + 8 ≤ mem_size
      → (t : State) × (loop 2 s ≡ running t) × (t.regs rd ≡ read s rs2)
  loop-sw-lw pos fits_sw fits_lw at_sw at_lw in_range small bound =
      let small' : read s rs2 < 2 ^ 32 = ground arith in
      let next_sw : next_pc s ≡ s.pc + 4 = omega arith in
      let at_lw' = ap (load32 mem_size s.rom) next_sw ∙ at_lw in
      let (u, first, seen) =
        iterate-next s s after_store (sw rs2 rs1 imm) refl fits_sw at_sw (step-sw in_range)
          (omega arith) in
      let (t, second, result) =
        iterate-next u after_store after_load (lw rd rs1 imm) seen fits_lw at_lw'
          (step-lw in_range small') (omega arith) in
      (
        t,
        loop-next 1 s u first ∙ loop-next 0 u t second ∙ loop-zero t,
        visible t (ap (λ (v : State). v.regs rd) result),
      )
    where
      loop-zero : (t : State) → loop 0 t ≡ running t
      loop-zero t = unfold loop in refl

      visible : (t : State) → read t rd ≡ read after_load rd → t.regs rd ≡ read s rs2
      visible t e = ground arith
