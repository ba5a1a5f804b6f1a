-- ===== src/Nemu/X86/Prefix.antt =====
-- The loop of isa_exec_once of ysyx-workbench/nemu/src/isa/x86/inst.c over prefixes ends.
use for_ysyx_self_store_by_h.Base.{
  ℕ, zero, suc, ◌+◌, ◌-◌, ◌^◌, ◌<◌, ◌≤◌, ◌≡◌, refl, ap, sym, arith, Bool, true, false, Option, none,
  some, ltb, u32, ◌⊎◌, inl, inr, subst, eq_of_some, Bool-cases, Option-cases, if◌then◌else◌, ◌==◌,
  List, [], ◌∷◌,
}
use for_ysyx_self_store_by_h.Nemu.Result.{
  Result, ok, failed, fault, assertion, check, ◌>>=◌, ◌>>◌, Ensures, Ensures-ok, Ensures->>=,
  Ensures-chain, Ensures-mono, check-eq-ok,
}
use for_ysyx_self_store_by_h.Nemu.Memory.Mmio.{Config}
use for_ysyx_self_store_by_h.Nemu.Memory.Paddr.{vaddr_ifetch}
use for_ysyx_self_store_by_h.Nemu.Riscv32.{instpat}
use for_ysyx_self_store_by_h.Nemu.X86.{X86}
use for_ysyx_self_store_by_h.Nemu.X86.Decode.{Decode, x86_inst_fetch, decode_operand, Kind, type_n}
use for_ysyx_self_store_by_h.Nemu.X86.Exec.{
  Next, done, again, Row, table, data_size, find_row, match_row, exec_body, Body, ends_with,
  two_byte_esc, gp1, mov_to_rm, mov_from_rm, mov_load, mov_store, mov_imm, mov_imm_to_rm, nemu_trap,
  inv, exec_opcode, exec_from, finish, exec_once,
}

-- How many bytes of the instruction have been read.
abbrev pub bytes_read : Decode → ℕ
bytes_read s = u32 (s.snpc + 2 ^ 32 - s.pc)

-- More bytes than before, and less than 16.
record HasRead (s s' : Decode) : Type 0 where
  more : bytes_read s < bytes_read s'
  few : bytes_read s' < 16

module _ {W : Type 0} (c : Config) where
  x86_inst_fetch-HasRead :
      (s : Decode) (m : X86 W)
      → s.pc < 2 ^ 32
      → bytes_read s < 16
      → Ensures (λ (v, s', m'). HasRead s s' × (s'.pc ≡ s.pc)) (x86_inst_fetch c 1 s m)
  unfolding x86_inst_fetch
  x86_inst_fetch-HasRead s m h few =
      Ensures->>= (vaddr_ifetch c s.snpc 1 m.bus)
        (λ (v, bus).
          check (ltb (u32 (u32 (s.snpc + 1) + 2 ^ 32 - s.pc)) 16) assertion
          >> ok (v, record s { snpc = u32 (s.snpc + 1) }, record m { bus = bus }))
        (λ (v, bus) e.
          Ensures->>= (check (ltb (u32 (u32 (s.snpc + 1) + 2 ^ 32 - s.pc)) 16) assertion)
            (λ fits. ok (v, record s { snpc = u32 (s.snpc + 1) }, record m { bus = bus }))
            (λ fits e'.
              let short = check-eq-ok _ assertion e' in
              Ensures-ok _
                (record { more = omega (arith, h, few); few = ground (arith, short) }, refl)))

-- The row of the prefix has no operands.
abbrev KindOf : Body → Kind → Type 0
KindOf data_size kind = kind ≡ type_n
KindOf _ kind = Unit

abbrev IsPlain : Row → Type 0
IsPlain r = KindOf r.body r.kind

abbrev ArePlain : List Row → Type 0
ArePlain [] = Unit
ArePlain (r ∷ rows) = IsPlain r × ArePlain rows

table-ArePlain : ArePlain table
table-ArePlain = (
  tt,
  (
    refl,
    (tt, (tt, (tt, (tt, (tt, (tt, (tt, (tt, (tt, (tt, (tt, (tt, (tt, (tt, (tt, tt))))))))))))))),
  ),
)

-- What goes on has read more.
abbrev GoesOn : {W : Type 0} → Decode → Next W → Type 0
GoesOn s (done s' m') = Unit
GoesOn s (again s' m') = HasRead s s' × (s'.pc ≡ s.pc)

find_row-IsPlain :
    (rows : List Row) (opcode : ℕ) (r : Row)
    → ArePlain rows
    → find_row rows opcode ≡ some r
    → IsPlain r
unfolding find_row
find_row-IsPlain [] opcode r h e = cc
find_row-IsPlain (q ∷ rows) opcode r h e = elim (Bool-cases (instpat q.pattern opcode)) [
  | inl fits ↦ let found : some q ≡ some r = rw fits at e in subst IsPlain (eq_of_some found) h.0
  | inr other ↦ find_row-IsPlain rows opcode r h.1 (rw other at e)
]

module _ {W : Type 0} (c : Config) where
  -- Behind any row but that of the prefix, the loop ends; and the prefix reads nothing more.
  match_row-GoesOn :
      (is16 : Bool) (opcode : ℕ) (r : Row) (s : Decode) (m : X86 W)
      → IsPlain r
      → Ensures
          (λ next.
            (next ≡ again (record s { dnpc = s.snpc }) m)
            ⊎ ((s' : Decode) × (m' : X86 W) × (next ≡ done s' m')))
          (match_row c is16 opcode (some r) s m)
  unfolding match_row decode_operand exec_body
  match_row-GoesOn is16 opcode r s m plain = go r.body r.kind plain
    where
      w : ℕ
      w = if r.width == 0 then if is16 then 2 else 4 else r.width

      Ends : Next W → Type 0
      Ends next =
          (next ≡ again (record s { dnpc = s.snpc }) m)
          ⊎ ((s' : Decode) × (m' : X86 W) × (next ≡ done s' m'))

      finish :
          (body : Body) (kind : Kind)
          → ((s2 : Decode) (m2 : X86 W) → Ends (ends_with c body s2 m2))
          → Ensures Ends (
              decode_operand c opcode w kind s m >>= λ (o, s1, m1).
              exec_body c body o w (record s1 { dnpc = s1.snpc }) m1 >>= λ (s2, m2).
              ok (ends_with c body s2 m2))
      finish body kind ends =
          Ensures->>= (decode_operand c opcode w kind s m)
            (λ (o, s1, m1). exec_body c body o w (record s1 { dnpc = s1.snpc }) m1 >>= λ (s2, m2).
              ok (ends_with c body s2 m2))
            (λ (o, s1, m1) e.
              Ensures->>= (exec_body c body o w (record s1 { dnpc = s1.snpc }) m1)
                (λ (s2, m2). ok (ends_with c body s2 m2))
                (λ (s2, m2) e'. Ensures-ok (ends_with c body s2 m2) (ends s2 m2)))

      go :
          (body : Body) (kind : Kind)
          → KindOf body kind
          → Ensures Ends (
              decode_operand c opcode w kind s m >>= λ (o, s1, m1).
              exec_body c body o w (record s1 { dnpc = s1.snpc }) m1 >>= λ (s2, m2).
              ok (ends_with c body s2 m2))
      go data_size kind h = rw h (Ensures-ok _ (inl refl))
      go two_byte_esc kind h = finish two_byte_esc kind (λ s2 m2. inr (s2, m2, refl))
      go gp1 kind h = finish gp1 kind (λ s2 m2. inr (s2, m2, refl))
      go mov_to_rm kind h = finish mov_to_rm kind (λ s2 m2. inr (s2, m2, refl))
      go mov_from_rm kind h = finish mov_from_rm kind (λ s2 m2. inr (s2, m2, refl))
      go mov_load kind h = finish mov_load kind (λ s2 m2. inr (s2, m2, refl))
      go mov_store kind h = finish mov_store kind (λ s2 m2. inr (s2, m2, refl))
      go mov_imm kind h = finish mov_imm kind (λ s2 m2. inr (s2, m2, refl))
      go mov_imm_to_rm kind h = finish mov_imm_to_rm kind (λ s2 m2. inr (s2, m2, refl))
      go nemu_trap kind h = finish nemu_trap kind (λ s2 m2. inr (s2, m2, refl))
      go inv kind h = finish inv kind (λ s2 m2. inr (s2, m2, refl))

  exec_opcode-GoesOn :
      (is16 : Bool) (s : Decode) (m : X86 W)
      → s.pc < 2 ^ 32
      → bytes_read s < 16
      → Ensures (GoesOn s) (exec_opcode c is16 s m)
  unfolding exec_opcode match_row
  exec_opcode-GoesOn is16 s m h few =
      Ensures-chain (x86_inst_fetch c 1 s m)
        (λ (opcode, s1, m1). match_row c is16 opcode (find_row table opcode) s1 m1)
        (x86_inst_fetch-HasRead c s m h few)
        (λ (opcode, s1, m1) (read, same).
          matched s1 m1 opcode read same (Option-cases (find_row table opcode)))
    where
      goes_on :
          (s1 : Decode) (m1 : X86 W)
          → HasRead s s1
          → s1.pc ≡ s.pc
          → (next : Next W)
          → (next ≡ again (record s1 { dnpc = s1.snpc }) m1)
            ⊎ ((s' : Decode) × (m' : X86 W) × (next ≡ done s' m'))
          → GoesOn s next
      goes_on s1 m1 read same next (inl e) =
          subst (GoesOn s) (sym e) (record { more = read.more; few = read.few }, same)
      goes_on s1 m1 read same next (inr (s', m', e)) = subst (GoesOn s) (sym e) tt

      matched :
          (s1 : Decode) (m1 : X86 W) (opcode : ℕ)
          → HasRead s s1
          → s1.pc ≡ s.pc
          → (find_row table opcode ≡ none) ⊎ ((r : Row) × (find_row table opcode ≡ some r))
          → Ensures (GoesOn s) (match_row c is16 opcode (find_row table opcode) s1 m1)
      matched s1 m1 opcode read same (inl e) = rw e (Ensures-ok (done s1 m1) tt)
      matched s1 m1 opcode read same (inr (r, e)) = rw e (
          Ensures-mono
            (match_row-GoesOn is16 opcode r s1 m1
              (find_row-IsPlain table opcode r table-ArePlain e))
            (goes_on s1 m1 read same))

  -- What exec_from does with one opcode.
  abbrev after : ℕ → Result (Next W) → Option (Result (Decode × X86 W))
  after n e = elim e [
    | failed f ↦ some (failed f)
    | fault ↦ some fault
    | ok next ↦ elim next [ done s m ↦ some (ok (s, m)) | again s m ↦ exec_from c n true s m ]
  ]

  -- However many opcodes are allowed, if they and the bytes that are read are 16 together, the loop
  -- over the prefixes is not cut off, and its outcome is the same.
  exec_from-enough :
      (n : ℕ) (is16 : Bool) (s : Decode) (m : X86 W)
      → s.pc < 2 ^ 32
      → bytes_read s < 16
      → 16 ≤ bytes_read s + n
      → (r : Result (Decode × X86 W)) × ((k : ℕ)
          → 16 ≤ bytes_read s + k
          → exec_from c k is16 s m ≡ some r)
  unfolding exec_from
  exec_from-enough zero is16 s m h few enough = absurd (omega (arith, few))
  exec_from-enough (suc n) is16 s m h few enough =
      let (r, same) =
        go (λ s' m'. exec_from-enough n true s' m') (exec_opcode c is16 s m)
          (exec_opcode-GoesOn is16 s m h few) in
      (r, λ k. at_least r same k)
    where
      Same : Decode → ℕ → Bool → X86 W → Type 0
      Same s' n is16 m' =
          (r : Result (Decode × X86 W)) × ((k : ℕ)
            → 16 ≤ bytes_read s' + k
            → exec_from c k is16 s' m' ≡ some r)

      go :
          ((s' : Decode) (m' : X86 W)
            → s'.pc < 2 ^ 32
            → bytes_read s' < 16
            → 16 ≤ bytes_read s' + n
            → Same s' n true m')
          → (e : Result (Next W)) → Ensures (GoesOn s) e
          → (r : Result (Decode × X86 W)) × ((k : ℕ)
              → 16 ≤ bytes_read s + suc k
              → after k e ≡ some r)
      go ih (failed f) q = (failed f, λ k le. refl)
      go ih fault q = (fault, λ k le. refl)
      go ih (ok (done s' m')) q = (ok (s', m'), λ k le. refl)
      go ih (ok (again s' m')) q =
          let (read, same) = q.holds in
          let (r, f) =
            ih s' m' (omega (arith, same, h)) read.few (omega (arith, read.more, enough)) in
          (r, λ k le. f k (omega (arith, read.more, le)))

      at_least :
          (r : Result (Decode × X86 W))
          → ((k : ℕ) → 16 ≤ bytes_read s + suc k → after k (exec_opcode c is16 s m) ≡ some r)
          → (k : ℕ) → 16 ≤ bytes_read s + k
          → exec_from c k is16 s m ≡ some r
      at_least r same zero le = absurd (omega (arith, few))
      at_least r same (suc k) le = same k le

  -- On x86, exec_once always has an outcome, whatever bytes the memory holds, prefixes in any number
  -- among them: the 16 opcodes that it may read are enough, and more would change nothing.
  pub exec_once-total :
      (m : X86 W)
      → m.pc < 2 ^ 32
      → (r : Result (Decode × X86 W)) × (exec_once c m
          ≡ some (r >>= λ (s, m'). ok (record m' { pc = s.dnpc })))
        × ((k : ℕ)
            → 16 ≤ k
            → exec_from c k false (record { pc = m.pc; snpc = m.pc; dnpc = 0 }) m ≡ some r)
  unfolding exec_once
  exec_once-total m h =
      let start : Decode = record { pc = m.pc; snpc = m.pc; dnpc = 0 } in
      let nothing : bytes_read start ≡ 0 = omega (arith, h) in
      let (r, same) = exec_from-enough 16 false start m h (omega (arith, nothing)) (omega arith) in
      (r, ap (finish c) (same 16 (omega arith)), λ k le. same k (omega (arith, nothing, le)))
