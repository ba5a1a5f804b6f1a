-- ===== src/Nemu/Monitor/Reference.antt =====
-- What the reference of the differential testing starts from: init_difftest at the end of init_monitor
-- of ysyx-workbench/nemu/src/monitor/monitor.c.
use for_ysyx_self_store_by_h.Base.{
  ℕ, ◌+◌, ◌^◌, ◌==◌, ==_iff, Bool-cases, inl, inr, arith, ◌≤◌, ◌<◌, true, false, some, List, [],
  ◌≡◌, refl, ap, ◌∙◌,
}
use for_ysyx_self_store_by_h.Nemu.Result.{ok}
use for_ysyx_self_store_by_h.Nemu.Memory.Mmio.{Config}
use for_ysyx_self_store_by_h.Nemu.Riscv32.{Machine, reset_vector}
use for_ysyx_self_store_by_h.Nemu.Devices.World.{World}
use for_ysyx_self_store_by_h.Nemu.Difftest.{Cpu, cpu_of, Ref, Library, init_difftest}
use for_ysyx_self_store_by_h.Nemu.Sdb.Watchpoint.{Pool}
use for_ysyx_self_store_by_h.Nemu.Monitor.{
  Opt, Args, default_args, parse_args, File, Setup, Outside, Started, init_log, init_monitor,
  start_difftest, init_sdb, opened,
}
use for_ysyx_self_store_by_h.Nemu.Monitor.Loads.{
  image_start, loaded, loaded-IsLoaded, load_img-image, init_monitor-load_img,
}

-- Registers as an RV32 machine with so many of them has them: register 0 is 0, and each is a word.
pub record IsCpu (nr_gpr : ℕ) (cpu : Cpu) : Type 0 where
  pub zero_reg : cpu.gpr 0 ≡ 0
  pub gpr_word : (i : ℕ) → i < nr_gpr → cpu.gpr i < 2 ^ 32
  pub pc_word : cpu.pc < 2 ^ 32

-- What a reference for riscv32 such as tools/spike-diff/difftest.cc does, with the memory of the
-- configuration, `nr_gpr` registers, and a state that is `Up` behind difftest_init: difftest_memcpy
-- writes bytes to addresses in the memory, and difftest_regcpy sets and reads the registers and pc.
-- Nothing is said of register 0 that is not 0, of other registers, or of addresses outside the memory.
pub record Behaves {R : Type 0} (c : Config) (nr_gpr : ℕ) (lib : Ref R) (Up : R → Type 0)
    (memory : R → ℕ → ℕ) : Type 0 where
  pub init_up : (port : ℕ) (r : R) → Up (lib.init port r)
  pub memcpy_up :
      (addr i n : ℕ) (buf : ℕ → ℕ) (r : R)
      → Up r
      → c.mbase ≤ addr
      → addr + n ≤ c.mbase + c.msize
      → Up (lib.memcpy addr buf i n r)
  pub memory_copied :
      (addr i n j : ℕ) (buf : ℕ → ℕ) (r : R)
      → Up r
      → c.mbase ≤ addr
      → addr + n ≤ c.mbase + c.msize
      → ((k : ℕ) → k < n → buf (i + k) < 2 ^ 8)
      → j < n
      → memory (lib.memcpy addr buf i n r) (addr + j) ≡ buf (i + j)
  pub pc_copied :
      (cpu : Cpu) (r : R)
      → Up r
      → IsCpu nr_gpr cpu
      → (lib.regs_to_dut (lib.regs_to_ref cpu r)).pc ≡ cpu.pc
  pub gpr_copied :
      (cpu : Cpu) (r : R) (i : ℕ)
      → Up r
      → IsCpu nr_gpr cpu
      → i < nr_gpr
      → (lib.regs_to_dut (lib.regs_to_ref cpu r)).gpr i ≡ cpu.gpr i
  pub memory_kept : (cpu : Cpu) (r : R) → Up r → memory (lib.regs_to_ref cpu r) ≡ memory r

-- The library that has these functions.
abbrev pub library : {R : Type 0} → Ref R → (ℕ → R → R) → Library R
library lib raise_intr = record {
  difftest_memcpy = some lib.memcpy;
  difftest_regcpy = some (lib.regs_to_dut, lib.regs_to_ref);
  difftest_exec = some lib.exec;
  difftest_raise_intr = some raise_intr;
  difftest_init = some lib.init;
}

-- The registers behind the start.
loaded-IsCpu :
    (setup : Setup) (rand nr_gpr : ℕ) (m : Machine World) (f : File)
    → ((i : ℕ) → i < nr_gpr → m.gpr i < 2 ^ 32)
    → reset_vector setup.config < 2 ^ 32
    → IsCpu nr_gpr (cpu_of (loaded setup rand m f))
loaded-IsCpu setup rand nr_gpr m f words vector =
    let l = loaded-IsLoaded setup rand m f in
    record {
      zero_reg = l.zero_reg;
      gpr_word = λ i small. elim (Bool-cases (i == 0)) [
        | inl first ↦
            let e : i ≡ 0 = (==_iff i 0).0 first in
            omega (arith, ap (λ j. (loaded setup rand m f).gpr j) e, l.zero_reg)
        | inr later ↦
            let low : 0 < i = ground (arith, later) in omega (arith, l.gpr i low, words i small)
      ];
      pc_word = omega (arith, l.pc, vector);
    }

-- With CONFIG_DIFFTEST, without devices, where the registers hold words, the reset vector is one, the
-- log file, if one is named, can be opened, and the shared library that the options name is there and
-- does for these registers and this memory what a reference does: a start with an image of bytes that
-- is not empty, can be read and fits leaves the reference with pc and the registers of the machine, and
-- with the image at the reset vector of its memory.
pub init_monitor-reference :
    {R : Type 0} (setup : Setup) (out : Outside R) (opts : List Opt) (a : Args) (name : List ℕ)
    (f : File) (lib : Ref R) (raise_intr : ℕ → R → R) (nr_gpr : ℕ) (Up : R → Type 0)
    (memory : R → ℕ → ℕ) (m : Machine World) (pool : Pool)
    → setup.config.device ≡ false
    → setup.difftest ≡ true
    → parse_args opts default_args ≡ some a
    → a.img_file ≡ some name
    → out.open_image name ≡ some f
    → init_log out.can_open_log a.log_file ≡ ok tt
    → opened out a.diff_so_file ≡ some (library lib raise_intr)
    → Behaves setup.config nr_gpr lib Up memory
    → ((i : ℕ) → i < nr_gpr → m.gpr i < 2 ^ 32)
    → reset_vector setup.config < 2 ^ 32
    → ((j : ℕ) → j < f.size → f.bytes j < 2 ^ 8)
    → f.is_readable ≡ true
    → 0 < f.size
    → image_start setup + f.size ≤ setup.config.msize
    → (s : Started R) × (r : R) × (init_monitor setup out opts m pool ≡ ok (some s))
      × (s.ref ≡ some (lib, r))
      × ((lib.regs_to_dut r).pc ≡ s.machine.pc)
      × ((i : ℕ) → i < nr_gpr → (lib.regs_to_dut r).gpr i ≡ s.machine.gpr i)
      × ((j : ℕ) → j < f.size → memory r (reset_vector setup.config + j) ≡ f.bytes j)
unfolding init_difftest
init_monitor-reference {R} setup out opts a name f lib raise_intr nr_gpr Up memory m pool no_device
      difftest parsed named found logged so laws words vector bytes readable some_bytes fits =
    let machine = loaded setup out.rand m f in
    let start = reset_vector setup.config in
    let up : R = lib.init a.difftest_port out.reference in
    let copied : R = lib.memcpy start machine.bus.pmem (image_start setup) f.size up in
    let r : R = lib.regs_to_ref (cpu_of machine) copied in
    let started : Started R = record {
      args = a;
      machine = machine;
      alarms = [];
      watchpoints = init_sdb pool;
      ref = some (lib, r);
    } in
    let begun : start_difftest setup out a f.size machine ≡ ok (some (lib, r)) =
      rw difftest (rw so refl) in
    let e : init_monitor setup out opts m pool ≡ ok (some started) =
      init_monitor-load_img setup out opts a name f no_device parsed named found logged m pool
        (load_img-image setup.config out.open_image name f found _ readable some_bytes fits)
      ∙ rw begun refl in
    let l = loaded-IsLoaded setup out.rand m f in
    let is_up : Up up = laws.init_up a.difftest_port out.reference in
    let above : setup.config.mbase ≤ start = omega arith in
    let below : start + f.size ≤ setup.config.mbase + setup.config.msize = omega arith in
    let copied_up : Up copied =
      laws.memcpy_up start (image_start setup) f.size machine.bus.pmem up is_up above below in
    let cpu = loaded-IsCpu setup out.rand nr_gpr m f words vector in
    (
      started,
      r,
      e,
      refl,
      laws.pc_copied (cpu_of machine) copied copied_up cpu,
      λ i small. laws.gpr_copied (cpu_of machine) copied i copied_up cpu small,
      λ j h.
          ap (λ (t : ℕ → ℕ). t (start + j)) (laws.memory_kept (cpu_of machine) copied copied_up)
          ∙ laws.memory_copied start (image_start setup) f.size j machine.bus.pmem up is_up above
              below (λ k small. omega (arith, l.loaded k small, bytes k small)) h
          ∙ l.loaded j h,
    )
