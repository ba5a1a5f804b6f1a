-- ===== src/Nemu/Devices/Board/Starts.antt =====
-- That init_device of ysyx-workbench/nemu/src/device/device.c leaves disjoint regions of guest
-- addresses over disjoint parts of io_space.
use for_ysyx_self_store_by_h.Base.{
  ℕ, ◌*◌, ◌^◌, ◌<◌, Bool, true, false, Option, none, some, [], ◌≡◌, sym, subst, arith, put_word,
  bit_or, if◌then◌else◌,
}
use for_ysyx_self_store_by_h.Nemu.Result.{
  Result, ok, failed, assertion, ◌>>=◌, Ensures, Ensures-ok, Ensures-chain, Ensures->>=,
}
use for_ysyx_self_store_by_h.Nemu.Memory.Mmio.{Config}
use for_ysyx_self_store_by_h.Nemu.Memory.Table.{IsTable}
use for_ysyx_self_store_by_h.Nemu.Keyboard.{key_none}
use for_ysyx_self_store_by_h.Nemu.Devices.Serial.{serial_io_handler}
use for_ysyx_self_store_by_h.Nemu.Devices.Rtc.{rtc_io_handler, timer_intr}
use for_ysyx_self_store_by_h.Nemu.Devices.Alarm.{add_alarm_handle, init_alarm}
use for_ysyx_self_store_by_h.Nemu.Devices.Card.{sdcard_io_handler}
use for_ysyx_self_store_by_h.Nemu.Devices.Board.{
  screen_size, clear, keyboard_handler, audio_io_handler, audio_space_size, Options, Host, Board,
  allocate, with_space, add_map, init_map, init_serial, init_timer, init_vga, init_i8042,
  init_audio, init_disk, init_sdcard, if_set, init_device,
}
use for_ysyx_self_store_by_h.Nemu.Devices.Board.Layout.{
  IsLaidOut, IsStacked, EndsBy, with_space-IsLaidOut, register, register-then,
}

module _ (c : Config) (k : Options) where
  init_serial-IsLaidOut : (b : Board) → IsLaidOut b → Ensures IsLaidOut (init_serial c k b)
  unfolding init_serial
  init_serial-IsLaidOut b h =
      register c k k.serial_mmio 8 (λ base. some (serial_io_handler base)) (λ base a. a) b
        (omega arith) h

  init_timer-IsLaidOut : (b : Board) → IsLaidOut b → Ensures IsLaidOut (init_timer c k b)
  unfolding init_timer
  init_timer-IsLaidOut b h =
      register-then c k k.rtc_mmio 8 (λ base. some (rtc_io_handler base)) (λ base a. a)
        (λ base b2.
          add_alarm_handle timer_intr b2.alarms >>= λ alarms. ok (record b2 { alarms = alarms }))
        b (omega arith) h
        (λ base b2 h2.
          Ensures->>= (add_alarm_handle timer_intr b2.alarms)
            (λ alarms. ok (record b2 { alarms = alarms }))
            (λ alarms e.
              Ensures-ok (record b2 { alarms = alarms })
                (record {
                  table = h2.table;
                  stacked = h2.stacked;
                  used = h2.used;
                  within = h2.within;
                })))

  init_vga-IsLaidOut :
      (b : Board) → 0 < screen_size c k → IsLaidOut b → Ensures IsLaidOut (init_vga c k b)
  unfolding init_vga
  init_vga-IsLaidOut b some_bytes h =
      register-then c k k.vga_ctl_mmio 8 (λ base. none)
        (λ base a. put_word a base (bit_or (k.screen_w * 2 ^ 16) k.screen_h))
        (λ base b2. allocate (screen_size c k) b2 >>= λ (vmem, b3).
          add_map c k k.fb_addr vmem (screen_size c k) none b3 >>= λ b4.
          ok (if k.vga_show_screen then with_space (clear vmem (screen_size c k)) b4 else b4))
        b (omega arith) h
        (λ base b2 h2.
          register-then c k k.fb_addr (screen_size c k) (λ vmem. none) (λ vmem a. a)
            (λ vmem b4.
              ok (if k.vga_show_screen then with_space (clear vmem (screen_size c k)) b4 else b4))
            b2 some_bytes h2
            (λ vmem b4 h4.
              Ensures-ok _ (shown k.vga_show_screen (clear vmem (screen_size c k)) b4 h4)))
    where
      shown :
          (show : Bool) (f : (ℕ → ℕ) → ℕ → ℕ) (b4 : Board)
          → IsLaidOut b4
          → IsLaidOut (if show then with_space f b4 else b4)
      shown true f b4 h4 = with_space-IsLaidOut f b4 h4
      shown false f b4 h4 = h4

  init_i8042-IsLaidOut : (b : Board) → IsLaidOut b → Ensures IsLaidOut (init_i8042 c k b)
  unfolding init_i8042
  init_i8042-IsLaidOut b h =
      register c k k.i8042_data_mmio 4 (λ base. some (keyboard_handler base))
        (λ base a. put_word a base key_none) b (omega arith) h

  init_audio-IsLaidOut :
      (b : Board) → 0 < k.sb_size → IsLaidOut b → Ensures IsLaidOut (init_audio c k b)
  unfolding init_audio
  init_audio-IsLaidOut b some_bytes h =
      register-then c k k.audio_ctl_mmio audio_space_size (λ base. some audio_io_handler)
        (λ base a. a)
        (λ base b2.
          allocate k.sb_size b2 >>= λ (sbuf, b3). add_map c k k.sb_addr sbuf k.sb_size none b3)
        b (omega arith) h
        (λ base b2 h2.
          register c k k.sb_addr k.sb_size (λ sbuf. none) (λ sbuf a. a) b2 some_bytes h2)

  init_sdcard-IsLaidOut :
      (host : Host) (b : Board) → IsLaidOut b → Ensures IsLaidOut (init_sdcard c k host b)
  unfolding init_sdcard
  init_sdcard-IsLaidOut host b h =
      register-then c k k.sdcard_ctl_mmio 0x80 (λ base. some (sdcard_io_handler base)) (λ base a. a)
        (λ base b2. ok (opened b2)) b (omega arith) h
        (λ base b2 h2.
          Ensures-ok (opened b2)
            (record { table = h2.table; stacked = h2.stacked; used = h2.used; within = h2.within }))
    where
      opened : Board → Board
      opened b2 = record b2 {
        io = record b2.io {
          devices = record b2.io.devices {
            card = record b2.io.devices.card { file = host.sdcard_img };
          };
        };
      }

  abbrev Keeps : (Board → Result Board) → Type 0
  Keeps init = (b : Board) → IsLaidOut b → Ensures IsLaidOut (init b)

  if_set-Keeps :
      (option : Bool) (init : Board → Result Board) → Keeps init → Keeps (if_set c k option init)
  if_set-Keeps true init keeps b h = keeps b h
  if_set-Keeps false init keeps b h = Ensures-ok b h

  -- One init function, if its option is set, and what follows.
  stage :
      (option : Bool) (init rest : Board → Result Board)
      → Keeps init
      → Keeps rest
      → Keeps (λ b. if_set c k option init b >>= rest)
  stage option init rest keeps goes b h =
      Ensures-chain (if_set c k option init b) rest (if_set-Keeps option init keeps b h) goes

  init_map-IsLaidOut :
      (host : Host) (b : Board) → b.maps ≡ [] → Ensures IsLaidOut (init_map c k host b)
  unfolding init_map
  init_map-IsLaidOut host b e = go host.malloc
    where
      go :
          (m : Option (ℕ → ℕ))
          → Ensures IsLaidOut (elim m [
            | none ↦ failed assertion
            | some bytes ↦ ok (record b { p_space = 0; io = record b.io { io_space = bytes } })
          ])
      go none = record { holds = tt }
      go (some bytes) = Ensures-ok _ (record {
        table = subst IsTable (sym e) (record { few = omega arith; separate = tt });
        stacked = subst IsStacked (sym e) tt;
        used = subst (λ ms. EndsBy ms 0) (sym e) tt;
        within = omega arith;
      })

  -- If no map was registered before and the screen and the audio buffer are not empty, then the maps
  -- that init_device registers, where it succeeds, have disjoint guest addresses, and the parts of
  -- io_space behind them, which are disjoint too, end before io_space_max.
  pub init_device-IsLaidOut :
      (host : Host) (b : Board)
      → b.maps ≡ []
      → 0 < screen_size c k
      → 0 < k.sb_size
      → Ensures IsLaidOut (init_device c k host b)
  unfolding init_device
  init_device-IsLaidOut host b e screen audio =
      Ensures-chain (init_map c k host b) from_serial (init_map-IsLaidOut host b e) (
        stage k.has_serial (init_serial c k) from_timer init_serial-IsLaidOut (
          stage k.has_timer (init_timer c k) from_vga init_timer-IsLaidOut (
            stage k.has_vga (init_vga c k) from_keyboard (λ b'. init_vga-IsLaidOut b' screen)
              (stage k.has_keyboard (init_i8042 c k) from_audio init_i8042-IsLaidOut (
                stage k.has_audio (init_audio c k) from_disk (λ b'. init_audio-IsLaidOut b' audio)
                  (stage k.has_disk (init_disk c k) from_sdcard Ensures-ok (
                    stage k.has_sdcard (init_sdcard c k host) alarm (init_sdcard-IsLaidOut host)
                      alarm-Keeps)))))))
    where
      alarm : Board → Result Board
      alarm b' = init_alarm host.sigaction_done host.setitimer_done >>= λ period. ok b'

      alarm-Keeps : Keeps alarm
      alarm-Keeps b' h =
          Ensures->>= (init_alarm host.sigaction_done host.setitimer_done) (λ period. ok b')
            (λ period done. Ensures-ok b' h)

      from_sdcard : Board → Result Board
      from_sdcard b' = if_set c k k.has_sdcard (init_sdcard c k host) b' >>= alarm

      from_disk : Board → Result Board
      from_disk b' = if_set c k k.has_disk (init_disk c k) b' >>= from_sdcard

      from_audio : Board → Result Board
      from_audio b' = if_set c k k.has_audio (init_audio c k) b' >>= from_disk

      from_keyboard : Board → Result Board
      from_keyboard b' = if_set c k k.has_keyboard (init_i8042 c k) b' >>= from_audio

      from_vga : Board → Result Board
      from_vga b' = if_set c k k.has_vga (init_vga c k) b' >>= from_keyboard

      from_timer : Board → Result Board
      from_timer b' = if_set c k k.has_timer (init_timer c k) b' >>= from_vga

      from_serial : Board → Result Board
      from_serial b' = if_set c k k.has_serial (init_serial c k) b' >>= from_timer
