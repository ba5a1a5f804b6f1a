-- ===== src/Nemu/Monitor.antt =====
-- The start of NEMU: ysyx-workbench/nemu/src/monitor/monitor.c, with init_log of src/utils/log.c,
-- init_sdb of src/monitor/sdb/sdb.c, and engine_start and main of src/engine/interpreter/init.c and
-- src/nemu-main.c. What getopt_long returns and what the host answers are arguments.
pub mod Loads
pub mod Runs
pub mod Reference
mod Examples
use for_ysyx_self_store_by_h.Base.{
  ℕ, ◌+◌, ◌-◌, ◌%◌, ◌^◌, Bool, true, false, ◌&&◌, Option, none, some, List, [], ◌∷◌, if◌then◌else◌,
  ltb, leb, ◌==◌,
}
use for_ysyx_self_store_by_h.Nemu.Result.{Result, ok, failed, fault, assertion, check, ◌>>=◌, ◌>>◌}
use for_ysyx_self_store_by_h.Nemu.State.{NemuState, is_exit_status_bad}
use for_ysyx_self_store_by_h.Nemu.Memory.Mmio.{Config}
use for_ysyx_self_store_by_h.Nemu.Memory.Paddr.{init_mem, guest_to_host}
use for_ysyx_self_store_by_h.Nemu.Riscv32.{Machine, init_isa, reset_vector}
use for_ysyx_self_store_by_h.Nemu.Devices.Clock.{get_time_internal}
use for_ysyx_self_store_by_h.Nemu.Devices.World.{World}
use for_ysyx_self_store_by_h.Nemu.Devices.Board.{Options, Host, init_device}
use for_ysyx_self_store_by_h.Nemu.Difftest.{Ref, Library, init_difftest}
use for_ysyx_self_store_by_h.Nemu.Sdb.Commands.{Session}
use for_ysyx_self_store_by_h.Nemu.Sdb.Mainloop.{sdb_mainloop}
use for_ysyx_self_store_by_h.Nemu.Sdb.Watchpoint.{Pool, init_wp_pool}

-- An option as getopt_long returns it: the options of the table, an argument that is no option (1),
-- and whatever the default case is for. For the port, it is what sscanf makes of the text, if it
-- finds a number.
pub data Opt : Type 0 where
  batch help : Opt
  port : Option ℕ → Opt
  log diff image : (name : List ℕ) → Opt

-- is_batch_mode, log_file, diff_so_file, img_file and difftest_port; `none` is NULL.
pub record Args : Type 0 where
  pub is_batch_mode : Bool
  pub log_file : Option (List ℕ)
  pub diff_so_file : Option (List ℕ)
  pub img_file : Option (List ℕ)
  pub difftest_port : ℕ

abbrev pub default_args : Args
default_args = record {
  is_batch_mode = false;
  log_file = none;
  diff_so_file = none;
  img_file = none;
  difftest_port = 1234;
}

abbrev pub port_or : Option ℕ → ℕ → ℕ
port_or none old = old
port_or (some n) old = n

-- `none` is exit (0), behind the text on the usage.
unfoldable pub parse_args : List Opt → Args → Option Args
parse_args [] a = some a
parse_args (batch ∷ opts) a = parse_args opts (record a { is_batch_mode = true })
parse_args (port n ∷ opts) a =
    parse_args opts (record a { difftest_port = port_or n a.difftest_port })
parse_args (log name ∷ opts) a = parse_args opts (record a { log_file = some name })
parse_args (diff name ∷ opts) a = parse_args opts (record a { diff_so_file = some name })
parse_args (image name ∷ opts) a = some (record a { img_file = some name })
parse_args (help ∷ opts) a = none

-- A file that fopen has opened: its bytes, its size as ftell tells it, and whether fread gets it.
pub record File : Type 0 where
  pub bytes : ℕ → ℕ
  pub size : ℕ
  pub is_readable : Bool

-- init_rand of src/utils/timer.c: the clock is read for srand.
abbrev pub init_rand : Machine World → Machine World
init_rand m =
    let io = m.bus.io in
    let clock = (get_time_internal io.devices.clock).1 in
    record m {
      bus = record m.bus { io = record io { devices = record io.devices { clock = clock } } };
    }

-- Bytes from a file, at an index of an array.
abbrev pub put_bytes : (ℕ → ℕ) → ℕ → ℕ → (ℕ → ℕ) → ℕ → ℕ
put_bytes a start size bytes j =
    if leb start j && ltb j (start + size) then bytes (j - start) else a j

-- fread of one item of `size` bytes to pmem; an item of no bytes is none read. Behind the end of pmem
-- C leaves the write undefined.
abbrev pub fread_image : Config → File → (ℕ → ℕ) → Result (ℕ → ℕ)
fread_image c f pmem =
    let start = guest_to_host c (reset_vector c) in
    if f.is_readable && ltb 0 f.size
    then if leb (start + f.size) c.msize then ok (put_bytes pmem start f.size f.bytes) else fault
    else failed assertion

-- The size, and pmem. `open_image` is fopen.
unfoldable pub load_img :
    Config → (List ℕ → Option File) → Option (List ℕ) → (ℕ → ℕ) → Result (ℕ × (ℕ → ℕ))
load_img c open_image none pmem = ok (4096, pmem)
load_img c open_image (some name) pmem = elim (open_image name) [
  | none ↦ failed assertion
  | some f ↦ do pmem' ← fread_image c f pmem; ok (f.size, pmem')
]

-- The options of Kconfig that the start depends on.
pub record Setup : Type 0 where
  pub config : Config
  pub options : Options
  pub mem_random : Bool
  pub difftest : Bool

-- What the host answers: rand, fopen for the log and for the image, the devices, and dlopen; and the
-- reference before its start.
pub record Outside (R : Type 0) : Type 0 where
  pub rand : ℕ
  pub can_open_log : List ℕ → Bool
  pub open_image : List ℕ → Option File
  pub devices : Host
  pub dlopen : List ℕ → Option (Library R)
  pub reference : R

-- What the start sets up.
pub record Started (R : Type 0) : Type 0 where
  pub args : Args
  pub machine : Machine World
  pub alarms : List (NemuState → NemuState)
  pub watchpoints : Pool
  pub ref : Option (Ref R × R)

unfoldable pub init_log : (List ℕ → Bool) → Option (List ℕ) → Result (Unit {0})
init_log can_open none = ok tt
init_log can_open (some name) = check (can_open name) assertion

-- init_sdb also compiles the regular expressions of expr.c.
abbrev pub init_sdb : Pool → Pool
init_sdb p = init_wp_pool p

abbrev pub opened : {R : Type 0} → Outside R → Option (List ℕ) → Option (Library R)
opened out none = none
opened out (some name) = out.dlopen name

module _ {R : Type 0} (setup : Setup) (out : Outside R) where
  -- IFDEF(CONFIG_DEVICE, init_device ())
  abbrev pub start_devices : Machine World → Result (Machine World × List (NemuState → NemuState))
  start_devices m =
      if setup.config.device
      then (do
        b ←
            init_device setup.config setup.options out.devices
              (record { p_space = 0; maps = m.bus.maps; alarms = []; io = m.bus.io })
        ok (record m { bus = record m.bus { maps = b.maps; io = b.io } }, b.alarms))
      else ok (m, [])

  -- Without CONFIG_DIFFTEST, init_difftest is empty.
  abbrev pub start_difftest : Args → ℕ → Machine World → Result (Option (Ref R × R))
  start_difftest a img_size m =
      if setup.difftest
      then (do
        started ←
            init_difftest setup.config (opened out a.diff_so_file) img_size a.difftest_port m
              out.reference
        ok (some started))
      else ok none

  -- Behind parse_args.
  unfoldable pub set_up : Args → Machine World → Pool → Result (Started R)
  set_up a m pool = do
    let m0 = init_rand m
    init_log out.can_open_log a.log_file
    let m1 : Machine World = record m0 {
      bus = init_mem setup.config setup.mem_random out.rand m0.bus;
    }
    (m2, alarms) ← start_devices m1
    let m3 = init_isa setup.config m2
    (img_size, pmem) ← load_img setup.config out.open_image a.img_file m3.bus.pmem
    let m4 : Machine World = record m3 { bus = record m3.bus { pmem = pmem } }
    ref ← start_difftest a img_size m4
    ok (record { args = a; machine = m4; alarms = alarms; watchpoints = init_sdb pool; ref = ref })

  -- `none` is exit (0).
  unfoldable pub init_monitor : List Opt → Machine World → Pool → Result (Option (Started R))
  init_monitor opts m pool = elim (parse_args opts default_args) [
    | none ↦ ok none
    | some a ↦ do s ← set_up a m pool; ok (some s)
  ]

-- engine_start: the lines that the user types, to the debugger.
abbrev pub engine_start : {R : Type 0} → Config → List (List ℕ) → Started R → Result (Session World)
engine_start c lines s =
    sdb_mainloop c s.args.is_batch_mode lines
      (record { run = record { machine = s.machine; nr_guest_inst = 0 }; output = [] })

-- is_exit_status_bad as a number.
abbrev pub exit_status : NemuState → ℕ
exit_status s = if is_exit_status_bad s then 1 else 0

-- main, the exit status of NEMU, where neither devices nor differential testing are configured.
unfoldable pub nemu_main :
    {R : Type 0} → Setup → Outside R → List Opt → List (List ℕ) → Machine World → Pool → Result ℕ
nemu_main setup out opts lines m pool = do
  started ← init_monitor setup out opts m pool
  elim started [
    | none ↦ ok 0
    | some s ↦ do
      session ← engine_start setup.config lines s
      ok (exit_status session.run.machine.nemu)
  ]
