-- ===== src/Nemu/Memory/Host.antt =====
-- ysyx-workbench/nemu/include/memory/host.h: accesses of 1, 2 or 4 bytes to a host array, for a
-- 32-bit guest and with CONFIG_RT_CHECK, the default. An address is an index into the array.
use for_ysyx_self_store_by_h.Base.{
  ℕ, ◌+◌, ◌*◌, ◌/◌, ◌%◌, ◌^◌, Option, none, some, if◌then◌else◌, ltb, ◌==◌, update, load8, load32,
  store8, store32,
}
use for_ysyx_self_store_by_h.Nemu.Result.{Result, ok, failed, fault, assertion}

abbrev pub of_option {ℓ} : {A : Type ℓ} → Option A → Result A
of_option none = fault
of_option (some a) = ok a

unfoldable pub load16 : ℕ → (ℕ → ℕ) → ℕ → Option ℕ
load16 size a i = if ltb size (i + 2) then none else some (a i + a (i + 1) * 2 ^ 8)

unfoldable pub store16 : ℕ → (ℕ → ℕ) → ℕ → ℕ → Option (ℕ → ℕ)
store16 size a i v =
    if ltb size (i + 2)
    then none
    else some (update (update a i (v % 2 ^ 8)) (i + 1) (v / 2 ^ 8 % 2 ^ 8))

unfoldable pub host_read : ℕ → (ℕ → ℕ) → ℕ → ℕ → Result ℕ
unfolding load8 load16 load32
host_read size a addr len =
    if len == 1
    then of_option (load8 size a addr)
    else if len == 2
    then of_option (load16 size a addr)
    else if len == 4
    then of_option (load32 size a addr)
    else failed assertion

unfoldable pub host_write : ℕ → (ℕ → ℕ) → ℕ → ℕ → ℕ → Result (ℕ → ℕ)
unfolding store8 store16 store32
host_write size a addr len v =
    if len == 1
    then of_option (store8 size a addr v)
    else if len == 2
    then of_option (store16 size a addr v)
    else if len == 4
    then of_option (store32 size a addr v)
    else failed assertion
