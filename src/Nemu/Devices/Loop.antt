-- ===== src/Nemu/Devices/Loop.antt =====
-- The loop of ysyx-workbench/nemu/src/cpu/cpu-exec.c with CONFIG_DEVICE: device_update runs behind
-- every instruction, and cpu_exec reads the clock before and behind the loop. CONFIG_DIFFTEST is not
-- set. What arrives in the event queue of SDL before each call of device_update is an argument.
pub mod Quits
mod Examples
use for_ysyx_self_store_by_h.Base.{
  ℕ, zero, suc, ◌+◌, ◌-◌, ◌%◌, ◌^◌, true, false, List, ◌++◌, if◌then◌else◌,
}
use for_ysyx_self_store_by_h.Nemu.Result.{Result, ok, failed, fault, ◌>>=◌}
use for_ysyx_self_store_by_h.Nemu.State.{running, is_running}
use for_ysyx_self_store_by_h.Nemu.Memory.Mmio.{Config}
use for_ysyx_self_store_by_h.Nemu.Riscv32.{Machine}
use for_ysyx_self_store_by_h.Nemu.Cpu.{Run, set_mode, has_ended, settle, exec_once}
use for_ysyx_self_store_by_h.Nemu.Devices.Clock.{get_time}
use for_ysyx_self_store_by_h.Nemu.Devices.World.{World}
use for_ysyx_self_store_by_h.Nemu.Devices.Update.{Event, device_update}

-- The run, `last` of device_update, the event queue, the calls of device_update so far, and g_timer.
pub record Busy : Type 0 where
  pub run : Run World
  pub last : ℕ
  pub queued : List Event
  pub polls : ℕ
  pub g_timer : ℕ

abbrev pub with_world : World → Machine World → Machine World
with_world w m = record m { bus = record m.bus { io = record m.bus.io { devices = w } } }

-- Behind an instruction that has left the machine `m`.
abbrev pub counted : Machine World → Busy → Busy
counted m b = record b {
  run = record { machine = m; nr_guest_inst = (b.run.nr_guest_inst + 1) % 2 ^ 64 };
}

-- A call of get_time.
abbrev pub read_clock : Busy → ℕ × Busy
read_clock b =
    let (now, clock) = get_time b.run.machine.bus.io.devices.clock in
    let world = record b.run.machine.bus.io.devices { clock = clock } in
    (now, record b { run = record b.run { machine = with_world world b.run.machine } })

module _ (keymap : ℕ → ℕ) (arrivals : ℕ → List Event) where
  unfoldable pub update_devices : Busy → Result Busy
  update_devices b =
      let m = b.run.machine in
      do
        (h, left) ←
            device_update keymap (b.queued ++ arrivals b.polls)
              (record { last = b.last; nemu = m.nemu; world = m.bus.io.devices })
        ok (record {
          run = record b.run { machine = with_world h.world (record m { nemu = h.nemu }) };
          last = h.last;
          queued = left;
          polls = b.polls + 1;
          g_timer = b.g_timer;
        })

module _ (c : Config) (keymap : ℕ → ℕ) (arrivals : ℕ → List Event) where
  -- The loop of execute, for at most so many instructions.
  unfoldable pub execute : ℕ → Busy → Result Busy
  execute zero b = ok b
  execute (suc n) b = elim (exec_once c b.run.machine.pc b.run.machine) [
    | failed e ↦ failed e
    | fault ↦ fault
    | ok m ↦ elim (is_running m.nemu.state) [
      | false ↦ ok (counted m b)
      | true ↦ elim (update_devices keymap arrivals (counted m b)) [
        | failed e ↦ failed e
        | fault ↦ fault
        | ok b' ↦ execute n b'
      ]
    ]
  ]

  unfoldable pub cpu_exec : ℕ → Busy → Result Busy
  cpu_exec n b = if has_ended b.run.machine.nemu.state then ok b else (do
    let (timer_start, b1) =
        read_clock (record b { run = record b.run { machine = set_mode b.run.machine running } })
    b2 ← execute n b1
    let (timer_end, b3) = read_clock b2
    ok (record b3 {
      run = settle b3.run;
      g_timer = (b3.g_timer + timer_end + 2 ^ 64 - timer_start) % 2 ^ 64;
    }))
