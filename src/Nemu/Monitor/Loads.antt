-- ===== src/Nemu/Monitor/Loads.antt =====
-- What init_monitor of ysyx-workbench/nemu/src/monitor/monitor.c has loaded.
use for_ysyx_self_store_by_h.Base.{
  ℕ, ◌+◌, ◌≤◌, ◌<◌, Bool, true, false, Option, none, some, List, [], ◌∷◌, ◌++◌, ◌≡◌, refl, inr, inl,
  Bool-cases, ap, ◌∙◌, arith, if◌then◌else◌, ltb, leb,
}
use for_ysyx_self_store_by_h.Nemu.Result.{Result, ok, ◌>>=◌}
use for_ysyx_self_store_by_h.Nemu.Memory.Mmio.{Config}
use for_ysyx_self_store_by_h.Nemu.Memory.Paddr.{init_mem, guest_to_host}
use for_ysyx_self_store_by_h.Nemu.Riscv32.{Machine, init_isa, restart, reset_vector}
use for_ysyx_self_store_by_h.Nemu.Devices.World.{World}
use for_ysyx_self_store_by_h.Nemu.Sdb.Watchpoint.{Pool}
use for_ysyx_self_store_by_h.Nemu.Monitor.{
  Opt, batch, help, port, log, diff, image, Args, default_args, parse_args, File, put_bytes,
  init_rand, load_img, Setup, Outside, Started, init_log, set_up, init_monitor, start_devices,
  start_difftest, init_sdb,
}

-- Where the image goes.
abbrev pub image_start : Setup → ℕ
image_start s = guest_to_host s.config (reset_vector s.config)

-- The options behind the image are not read.
parse_args-image :
    (before after : List Opt) (name : List ℕ) (a : Args)
    → parse_args (before ++ image name ∷ after) a ≡ parse_args (before ++ image name ∷ []) a
unfolding parse_args
parse_args-image [] after name a = refl
parse_args-image (batch ∷ before) after name a = parse_args-image before after name _
parse_args-image (help ∷ before) after name a = refl
parse_args-image (port n ∷ before) after name a = parse_args-image before after name _
parse_args-image (log file ∷ before) after name a = parse_args-image before after name _
parse_args-image (diff file ∷ before) after name a = parse_args-image before after name _
parse_args-image (image file ∷ before) after name a = refl

-- The memory, the registers and the state of the machine behind a start with an image.
pub record IsLoaded (setup : Setup) (rand : ℕ) (f : File) (before after : Machine World)
    : Type 0 where
  pub loaded : (j : ℕ) → j < f.size → after.bus.pmem (image_start setup + j) ≡ f.bytes j
  pub below :
      (j : ℕ)
      → j < image_start setup
      → after.bus.pmem j ≡ (init_mem setup.config setup.mem_random rand before.bus).pmem j
  pub above :
      (j : ℕ)
      → image_start setup + f.size ≤ j
      → image_start setup + 20 ≤ j
      → after.bus.pmem j ≡ (init_mem setup.config setup.mem_random rand before.bus).pmem j
  pub pc : after.pc ≡ reset_vector setup.config
  pub zero_reg : after.gpr 0 ≡ 0
  pub gpr : (i : ℕ) → 0 < i → after.gpr i ≡ before.gpr i
  pub nemu : after.nemu ≡ before.nemu

-- The memory does not depend on the clock.
init_rand-pmem :
    (setup : Setup) (rand : ℕ) (m : Machine World)
    → (init_mem setup.config setup.mem_random rand (init_rand m).bus).pmem
      ≡ (init_mem setup.config setup.mem_random rand m.bus).pmem
unfolding init_mem
init_rand-pmem setup rand m = elim (Bool-cases setup.mem_random) [
  | inl e ↦ rw e refl
  | inr e ↦ rw e refl
]

module _ (setup : Setup) (rand : ℕ) (m : Machine World) where
  -- What init_mem leaves.
  abbrev left : ℕ → ℕ
  left = (init_mem setup.config setup.mem_random rand (init_rand m).bus).pmem

  -- The machine behind init_isa.
  abbrev pub booted : Machine World
  booted =
      let m0 = init_rand m in
      init_isa setup.config (record m0 { bus = init_mem setup.config setup.mem_random rand m0.bus })

  -- The machine with another memory.
  abbrev pub holding : (ℕ → ℕ) → Machine World
  holding pmem = record booted { bus = record booted.bus { pmem = pmem } }

  abbrev pub loaded : File → Machine World
  loaded f = holding (put_bytes booted.bus.pmem (image_start setup) f.size f.bytes)

  pub loaded-IsLoaded : (f : File) → IsLoaded setup rand f m (loaded f)
  unfolding init_isa restart
  loaded-IsLoaded f = record {
    loaded = λ j h. ground arith;
    below = λ j h.
        let e : (loaded f).bus.pmem j ≡ left j = ground arith in
        e ∙ ap (λ (t : ℕ → ℕ). t j) (init_rand-pmem setup rand m);
    above = λ j h k.
        let e : (loaded f).bus.pmem j ≡ left j = ground arith in
        e ∙ ap (λ (t : ℕ → ℕ). t j) (init_rand-pmem setup rand m);
    pc = refl;
    zero_reg = refl;
    gpr = λ i h. ground arith;
    nemu = refl;
  }

-- An option that is not set.
if_unset {ℓ} : {A : Type ℓ} (b : Bool) (x y : A) → b ≡ false → (if b then x else y) ≡ y
if_unset false x y h = refl
if_unset true x y h = absurd (cc)

module _ (c : Config) (out : List ℕ → Option File) (name : List ℕ) (f : File)
    (found : out name ≡ some f) (pmem : ℕ → ℕ) where
  pub load_img-image :
      f.is_readable ≡ true
      → 0 < f.size
      → guest_to_host c (reset_vector c) + f.size ≤ c.msize
      → load_img c out (some name) pmem
        ≡ ok (f.size, put_bytes pmem (guest_to_host c (reset_vector c)) f.size f.bytes)
  unfolding load_img
  load_img-image readable some_bytes fits =
      let some_size : ltb 0 f.size ≡ true = ground arith in
      let in_range : leb (guest_to_host c (reset_vector c) + f.size) c.msize ≡ true =
        ground arith in
      rw (found, load_img) (rw readable (rw some_size (rw in_range refl)))

-- What is left behind load_img, without devices.
abbrev pub behind_load :
    {R : Type 0}
    → Setup
    → Outside R
    → Args
    → Machine World
    → Pool
    → Result (ℕ × (ℕ → ℕ))
    → Result (Started R)
behind_load setup out a m pool r = do
  (img_size, pmem) ← r
  ref ← start_difftest setup out a img_size (holding setup out.rand m pmem)
  ok (record {
    args = a;
    machine = holding setup out.rand m pmem;
    alarms = [];
    watchpoints = init_sdb pool;
    ref = ref;
  })

module _ {R : Type 0} (setup : Setup) (out : Outside R) (no_device : setup.config.device ≡ false)
    (a : Args) (logged : init_log out.can_open_log a.log_file ≡ ok tt) (m : Machine World)
    (pool : Pool) where
  set_up-load_img :
      {r : Result (ℕ × (ℕ → ℕ))}
      → load_img setup.config out.open_image a.img_file (booted setup out.rand m).bus.pmem ≡ r
      → set_up setup out a m pool ≡ behind_load setup out a m pool r
  unfolding set_up
  set_up-load_img e =
      let m0 = init_rand m in
      let m1 : Machine World = record m0 {
        bus = init_mem setup.config setup.mem_random out.rand m0.bus;
      } in
      let skipped : start_devices setup out m1 ≡ ok (m1, []) =
        if_unset setup.config.device _ (ok (m1, [])) no_device in
      rw logged (rw skipped (rw e refl))

module _ {R : Type 0} (setup : Setup) (out : Outside R) (opts : List Opt) (a : Args) (name : List ℕ)
    (f : File) (no_device : setup.config.device ≡ false)
    (parsed : parse_args opts default_args ≡ some a) (named : a.img_file ≡ some name)
    (found : out.open_image name ≡ some f) (logged : init_log out.can_open_log a.log_file ≡ ok tt)
    (m : Machine World) (pool : Pool) where
  pub init_monitor-load_img :
      {r : Result (ℕ × (ℕ → ℕ))}
      → load_img setup.config out.open_image (some name) (booted setup out.rand m).bus.pmem ≡ r
      → init_monitor setup out opts m pool ≡ (do s ← behind_load setup out a m pool r; ok (some s))
  unfolding init_monitor
  init_monitor-load_img {r} e =
      let e' : load_img setup.config out.open_image a.img_file (booted setup out.rand m).bus.pmem
          ≡ r =
        rw named e in
      rw (parsed, init_monitor) (rw (set_up-load_img setup out no_device a logged m pool e') refl)

  -- Without devices and differential testing, where the log file, if one is named, can be opened, and
  -- the options name an image that can be read, is not empty and fits into the memory behind the
  -- reset vector, init_monitor succeeds: the image is in the memory there, the bytes before it, and
  -- those behind it and behind the built-in image, are what init_mem has left, pc is the reset vector,
  -- register 0 is 0 and the others, and nemu_state, are as before.
  pub init_monitor-IsLoaded :
      setup.difftest ≡ false
      → f.is_readable ≡ true
      → 0 < f.size
      → image_start setup + f.size ≤ setup.config.msize
      → (s : Started R) × (init_monitor setup out opts m pool ≡ ok (some s))
        × (s.args ≡ a)
        × IsLoaded setup out.rand f m s.machine
  init_monitor-IsLoaded no_difftest readable some_bytes fits =
      let skipped : start_difftest setup out a f.size (loaded setup out.rand m f) ≡ ok none =
        if_unset setup.difftest _ (ok none) no_difftest in
      let started : Started R = record {
        args = a;
        machine = loaded setup out.rand m f;
        alarms = [];
        watchpoints = init_sdb pool;
        ref = none;
      } in
      let e : init_monitor setup out opts m pool ≡ ok (some started) =
        init_monitor-load_img
          (load_img-image setup.config out.open_image name f found _ readable some_bytes fits)
        ∙ rw skipped refl in
      (started, e, refl, loaded-IsLoaded setup out.rand m f)
