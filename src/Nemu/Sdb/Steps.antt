-- ===== src/Nemu/Sdb/Steps.antt =====
-- What the commands si and x of ysyx-workbench/nemu/src/monitor/sdb/sdb.c do.
use for_ysyx_self_store_by_h.Base.{
  ℕ, zero, suc, ◌+◌, ◌-◌, ◌*◌, ◌/◌, ◌%◌, ◌^◌, ◌<◌, ◌≤◌, true, false, ◌≡◌, ap, sym, ◌∙◌, arith,
  Option, some, List, [], ◌∷◌, ◌++◌, ltb, ◌==◌, u32, word_at, append_assoc, append_nil,
}
use for_ysyx_self_store_by_h.Nemu.Result.{Result, ok}
use for_ysyx_self_store_by_h.Nemu.Memory.Mmio.{Config, in_pmem}
use for_ysyx_self_store_by_h.Nemu.Memory.Access.{in_pmem-range, paddr_read-aligned}
use for_ysyx_self_store_by_h.Nemu.Sdb.Text.{parse_uint64}
use for_ysyx_self_store_by_h.Nemu.Sdb.Numbers.{digits_value, IsDigits, IsSpaces, skip_spaces-only}
use for_ysyx_self_store_by_h.Nemu.Sdb.Commands.{
  Line, word, Session, examine, x_from, x_count, cmd_x,
}

-- A text that is a decimal number between spaces.
pub record IsNumber (text : List ℕ) (n : ℕ) : Type 0 where
  pub before : List ℕ
  pub digit : ℕ
  pub digits : List ℕ
  pub after : List ℕ
  pub is_text : text ≡ before ++ digit ∷ (digits ++ after)
  pub before_spaces : IsSpaces before
  pub are_digits : IsDigits 10 (digit ∷ digits)
  pub after_spaces : IsSpaces after
  pub has_value : digits_value 10 0 (digit ∷ digits) ≡ n

-- The lines for so many words of physical memory, from the word `i` of the guest address `start` on.
abbrev pub words_from : Config → (ℕ → ℕ) → ℕ → ℕ → ℕ → List Line
words_from c pmem zero start i = []
words_from c pmem (suc n) start i =
    word (start + i * 4) (word_at pmem (start + i * 4 - c.mbase))
    ∷ words_from c pmem n start (i + 1)

-- The memory of the emulator, in whole words.
pub record IsWordMemory (c : Config) : Type 0 where
  pub base : c.mbase % 4 ≡ 0
  pub size : c.msize % 4 ≡ 0
  pub fits : c.mbase + c.msize ≤ 2 ^ 32

module _ {W : Type 0} (c : Config) where
  examine-words :
      (n start i : ℕ) (s : Session W)
      → IsWordMemory c
      → start % 4 ≡ 0
      → c.mbase ≤ start
      → start + (i + n) * 4 ≤ c.mbase + c.msize
      → examine c n start i s
        ≡ ok (record s { output = s.output ++ words_from c s.run.machine.bus.pmem n start i })
  unfolding examine
  examine-words zero start i s m aligned lo hi =
      ap (λ o. ok (record s { output = o })) (sym (append_nil s.output))
  examine-words (suc n) start i s m aligned lo hi =
      let addr = start + i * 4 in
      let narrow : u32 addr ≡ addr = omega (arith, m.fits) in
      let inside : in_pmem c addr ≡ true =
        in_pmem-range c addr m.fits (omega (arith, m.fits)) ∙ ground arith in
      let reads =
        paddr_read-aligned c addr s.run.machine.bus m.base m.size m.fits (omega (arith, m.fits))
          (omega arith) inside in
      let w = word_at s.run.machine.bus.pmem (addr - c.mbase) in
      let s' : Session W = record s { output = s.output ++ word addr w ∷ [] } in
      rw narrow (
        rw reads (
          examine-words n start (i + 1) s' m aligned lo (omega arith)
          ∙ ap (λ o. ok (record s { output = o }))
              (append_assoc s.output (word addr w ∷ [])
                (words_from c s.run.machine.bus.pmem n start (i + 1)))))

  -- Where the count and the address are parsed, the address is aligned, nothing but spaces follows,
  -- and all the words are in physical memory, cmd_x shows these words of the memory, in order,
  -- and changes nothing else of the session.
  cmd_x-words :
      (args : Option (List ℕ)) (n addr : ℕ) (addr_str end : List ℕ) (s : Session W)
      → IsWordMemory c
      → parse_uint64 args 10 ≡ some (n, addr_str)
      → parse_uint64 (some addr_str) 0 ≡ some (addr, end)
      → IsSpaces end
      → 0 < n
      → addr % 4 ≡ 0
      → c.mbase ≤ addr
      → addr + n * 4 ≤ c.mbase + c.msize
      → cmd_x c args s
        ≡ ok (record s { output = s.output ++ words_from c s.run.machine.bus.pmem n addr 0 })
  unfolding cmd_x
  cmd_x-words args n addr addr_str end s m counted found spaces positive aligned lo hi =
      let some_words : (n == 0) ≡ false = ground arith in
      let short : ltb (2 ^ 32 - 1) addr ≡ false = ground (arith, m.fits) in
      let no_wrap : ltb ((2 ^ 32 - 1 - addr) / 4 + 1) n ≡ false = ground (arith, m.fits) in
      ap (λ o. x_count c o s) counted
      ∙ rw some_words (
          ap (λ o. x_from c n o s) found
          ∙ rw (skip_spaces-only end spaces)
              (rw short (rw no_wrap (examine-words n addr 0 s m aligned lo (omega arith)))))
