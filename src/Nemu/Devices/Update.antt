-- ===== src/Nemu/Devices/Update.antt =====
-- device_update of ysyx-workbench/nemu/src/device/device.c, with CONFIG_HAS_KEYBOARD, the default;
-- vga_update_screen has no code yet. The events that SDL has in its queue are an argument.
pub mod Keys
use for_ysyx_self_store_by_h.Base.{
  ℕ, ◌+◌, ◌/◌, ◌%◌, ◌^◌, ◌-◌, Bool, List, [], ◌∷◌, if◌then◌else◌, ltb,
}
use for_ysyx_self_store_by_h.Nemu.Result.{Result, ok, ◌>>=◌}
use for_ysyx_self_store_by_h.Nemu.State.{NemuState, quit}
use for_ysyx_self_store_by_h.Nemu.Keyboard.{Queue, send_key}
use for_ysyx_self_store_by_h.Nemu.Devices.Clock.{get_time}
use for_ysyx_self_store_by_h.Nemu.Devices.World.{World}
use for_ysyx_self_store_by_h.Nemu.Devices.Alarm.{timer_hz}

-- SDL_QUIT, SDL_KEYDOWN or SDL_KEYUP with its scancode, and any other type.
pub data Event : Type 0 where
  sdl_quit other : Event
  key : (scancode : ℕ) → (is_keydown : Bool) → Event

-- `last` of device_update, nemu_state, and the devices.
pub record Host : Type 0 where
  pub last : ℕ
  pub nemu : NemuState
  pub world : World

-- keymap is the table that init_keymap fills.
module _ (keymap : ℕ → ℕ) where
  unfoldable pub handle_event : Event → Host → Result Host
  handle_event sdl_quit h = ok (record h { nemu = record h.nemu { state = quit } })
  handle_event other h = ok h
  handle_event (key scancode is_keydown) h = do
    keys ← send_key keymap h.nemu.state (scancode % 2 ^ 8) is_keydown h.world.keys
    ok (record h { world = record h.world { keys = keys } })

  -- The loop over SDL_PollEvent.
  unfoldable pub poll_events : List Event → Host → Result Host
  poll_events [] h = ok h
  poll_events (e ∷ events) h = do h' ← handle_event e h; poll_events events h'

  -- The events that stay in the queue of SDL are returned with the state.
  unfoldable pub device_update : List Event → Host → Result (Host × List Event)
  device_update events h =
      let (now, clock) = get_time h.world.clock in
      let h' = record h { world = record h.world { clock = clock } } in
      if ltb ((now + 2 ^ 64 - h.last) % 2 ^ 64) (1000000 / timer_hz)
      then ok (h', events)
      else (do done ← poll_events events (record h' { last = now }); ok (done, []))

-- sdl_clear_event_queue.
abbrev pub sdl_clear_event_queue : List Event → List Event
sdl_clear_event_queue events = []
