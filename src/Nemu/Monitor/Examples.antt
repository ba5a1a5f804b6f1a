-- ===== src/Nemu/Monitor/Examples.antt =====
-- The theorems on the start of NEMU, and tests.
use for_ysyx_self_store_by_h.Base.{
  ℕ, zero, suc, ◌+◌, ◌-◌, ◌%◌, ◌^◌, ◌<◌, ◌≤◌, ◌&&◌, ◌∙◌, sym, Bool, if◌then◌else◌, true, false,
  none, some, List, [], ◌∷◌, ◌≡◌, refl, arith, leb, ltb, codes,
}
use for_ysyx_self_store_by_h.Nemu.Result.{ok}
use for_ysyx_self_store_by_h.Nemu.State.{stop}
use for_ysyx_self_store_by_h.Nemu.Riscv32.{Machine, reset_vector}
use for_ysyx_self_store_by_h.Nemu.Devices.World.{World}
use for_ysyx_self_store_by_h.Nemu.Devices.Board.Default.{default_options, host_with}
use for_ysyx_self_store_by_h.Nemu.Cpu.Image.{default_config}
use for_ysyx_self_store_by_h.Nemu.Difftest.{Cpu, Ref}
use for_ysyx_self_store_by_h.Nemu.Sdb.Watchpoint.{Pool}
use for_ysyx_self_store_by_h.Nemu.Monitor.{
  Opt, batch, help, port, diff, image, Args, default_args, parse_args, put_bytes, File, Setup,
  Outside, Started, init_log, init_monitor, nemu_main,
}
use for_ysyx_self_store_by_h.Nemu.Monitor.Loads.{IsLoaded, init_monitor-IsLoaded}
use for_ysyx_self_store_by_h.Nemu.Monitor.Runs.{default_setup, nemu_main-batch}
use for_ysyx_self_store_by_h.Nemu.Monitor.Reference.{
  IsCpu, Behaves, library, init_monitor-reference,
}

abbrev world : World
world = record {
  clock = record { readings = λ i. (i, 0); calls = 0; boot_time = 0 };
  stderr = [];
  keys = record { slots = λ i. 0; front = 0; rear = 0 };
  card = record {
    file = none;
    blkcnt = 0;
    blk_addr = 0;
    addr = 0;
    write_cmd = false;
    read_ext_csd = false;
  };
}

abbrev powered : Machine World
powered = record {
  gpr = λ i. 5;
  pc = 0;
  nemu = record { state = stop; halt_pc = 0; halt_ret = 0 };
  bus = record { pmem = λ i. 9; maps = []; io = record { io_space = λ i. 0; devices = world } };
}

abbrev no_pool : Pool
no_pool = record { no = λ i. 0; next = λ i. none; head = none; free = none }

abbrev file_of : ℕ → File
file_of size = record { bytes = λ i. 19; size = size; is_readable = true }

-- A reference that does with a processor what tools/spike-diff/difftest.cc does: whether
-- difftest_init has been called, the processor, and its memory.
abbrev State : Type 0
State = Bool × Cpu × (ℕ → ℕ)

-- A write to register 0 is ignored, and a store outside the memory goes nowhere.
abbrev reference : Ref State
reference = record {
  memcpy = λ addr buf i n r.
      let store : ℕ → ℕ = λ a.
        if leb 0x80000000 a && ltb a 0x88000000
        then put_bytes r.2 addr n (λ j. buf (i + j) % 2 ^ 8) a
        else r.2 a in
      (r.0, r.1, store);
  regs_to_dut = λ r. r.1;
  regs_to_ref = λ c r.
      let gpr : ℕ → ℕ = λ i. if ltb 0 i && ltb i 32 then c.gpr i % 2 ^ 32 else r.1.gpr i in
      if r.0 then (true, record { gpr = gpr; pc = c.pc % 2 ^ 32 }, r.2) else r;
  exec = λ n r. r;
  init = λ p r. (true, record { gpr = λ i. 0; pc = 0 }, r.2);
}

abbrev memory : State → ℕ → ℕ
memory r = r.2

-- It has started, and its register 0 is 0.
abbrev IsUp : State → Type 0
IsUp r = (r.0 ≡ true) × (r.1.gpr 0 ≡ 0)

reference-Behaves : Behaves default_config 32 reference IsUp memory
reference-Behaves = record {
  init_up = λ port r. (refl, refl);
  memcpy_up = λ addr i n buf r up low high. up;
  memory_copied =
      λ addr i n j buf r up low high bytes h. copied addr i n j buf r.2 low high bytes h;
  pc_copied = λ cpu r up h. rw (up.0) (omega (arith, h.pc_word));
  gpr_copied = λ cpu r i up h small. rw (up.0) (register cpu r.1 i up.1 h small);
  memory_kept = λ cpu r up. rw (up.0) refl;
}
  where
    copied :
        (addr i n j : ℕ) (buf a : ℕ → ℕ)
        → 0x80000000 ≤ addr
        → addr + n ≤ 0x80000000 + 0x8000000
        → ((k : ℕ) → k < n → buf (i + k) < 2 ^ 8)
        → j < n
        → (if leb 0x80000000 (addr + j) && ltb (addr + j) 0x88000000
            then put_bytes a addr n (λ k. buf (i + k) % 2 ^ 8) (addr + j)
            else a (addr + j))
          ≡ buf (i + j)
    copied addr i n j buf a low high bytes h =
        let above : leb 0x80000000 (addr + j) ≡ true = ground arith in
        let below : ltb (addr + j) 0x88000000 ≡ true = ground arith in
        let first : leb addr (addr + j) ≡ true = ground arith in
        let last : ltb (addr + j) (addr + n) ≡ true = ground arith in
        let back : addr + j - addr ≡ j = omega arith in
        rw above (rw below (rw first (rw last (rw back (omega (arith, bytes j h))))))

    register :
        (cpu now : Cpu) (i : ℕ)
        → now.gpr 0 ≡ 0
        → IsCpu 32 cpu
        → i < 32
        → (if ltb 0 i && ltb i 32 then cpu.gpr i % 2 ^ 32 else now.gpr i) ≡ cpu.gpr i
    register cpu now zero zero_now h small = zero_now ∙ sym h.zero_reg
    register cpu now (suc i) zero_now h small =
        let low : ltb 0 (suc i) ≡ true = ground arith in
        let high : ltb (suc i) 32 ≡ true = ground arith in
        rw low (rw high (omega (arith, h.gpr_word (suc i) small)))

-- A host with a file of this size under any name.
abbrev host : ℕ → Outside State
host size = record {
  rand = 7;
  can_open_log = λ name. true;
  open_image = λ name. some (file_of size);
  devices = host_with (λ i. 0) none;
  dlopen = λ name. some (library reference (λ no r. r));
  reference = (false, record { gpr = λ i. 0; pc = 0 }, λ i. 0);
}

abbrev opts : List Opt
opts = batch ∷ diff (codes "ref.so") ∷ image (codes "add.bin") ∷ help ∷ []

abbrev args : Args
args = record {
  is_batch_mode = true;
  log_file = none;
  diff_so_file = some (codes "ref.so");
  img_file = some (codes "add.bin");
  difftest_port = 1234;
}

parsed : parse_args opts default_args ≡ some args
unfolding parse_args
parsed = refl

-- A port is a number, and --help ends the program.
port_given :
    parse_args (port (some 99) ∷ port none ∷ []) default_args
    ≡ some (record default_args { difftest_port = 99 })
unfolding parse_args
port_given = refl

usage : parse_args (batch ∷ help ∷ image (codes "add.bin") ∷ []) default_args ≡ none
unfolding parse_args
usage = refl

not_logged : init_log (λ name. true) none ≡ ok tt
unfolding init_log
not_logged = refl

abbrev setup : Setup
setup = default_setup default_options true

init_monitor-IsLoaded_example :
    (s : Started State) × (init_monitor setup (host 64) opts powered no_pool ≡ ok (some s))
    × (s.args ≡ args)
    × IsLoaded setup 7 (file_of 64) powered s.machine
init_monitor-IsLoaded_example =
    init_monitor-IsLoaded setup (host 64) opts args (codes "add.bin") (file_of 64) refl parsed refl
      refl not_logged powered no_pool refl refl (omega arith) (omega arith)

nemu_main-batch_example :
    nemu_main setup (host 64) (batch ∷ []) (codes "x 1 0" ∷ []) powered no_pool ≡ ok 0
nemu_main-batch_example =
    nemu_main-batch default_options true (host 64) (codes "x 1 0" ∷ []) powered no_pool refl

abbrev tested : Setup
tested = record setup { difftest = true }

init_monitor-reference_example :
    (s : Started State) × (r : State) × (init_monitor tested (host 64) opts powered no_pool
      ≡ ok (some s))
    × (s.ref ≡ some (reference, r))
    × (r.1.pc ≡ s.machine.pc)
    × ((i : ℕ) → i < 32 → r.1.gpr i ≡ s.machine.gpr i)
    × ((j : ℕ) → j < 64 → r.2 (reset_vector tested.config + j) ≡ 19)
init_monitor-reference_example =
    init_monitor-reference tested (host 64) opts args (codes "add.bin") (file_of 64) reference
      (λ no r. r) 32 IsUp memory powered no_pool refl refl parsed refl refl not_logged refl
      reference-Behaves (λ i small. omega arith) (omega arith) (λ j h. omega arith) refl
      (omega arith) (omega arith)
