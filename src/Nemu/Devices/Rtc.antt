-- ===== src/Nemu/Devices/Rtc.antt =====
-- The clock, ysyx-workbench/nemu/src/device/timer.c, and the host interrupt of intr.c.
use for_ysyx_self_store_by_h.Base.{
  ℕ, ◌+◌, ◌-◌, ◌/◌, ◌%◌, ◌^◌, ◌<◌, ◌≤◌, Bool, not, ◌&&◌, ◌||◌, some, if◌then◌else◌, ◌==◌, ◌≡◌, ap,
  ◌∙◌, arith, put_word, word_at, word_at-put_word,
}
use for_ysyx_self_store_by_h.Nemu.Result.{Result, ok, assertion, check, ◌>>◌}
use for_ysyx_self_store_by_h.Nemu.State.{NemuState, is_running}
use for_ysyx_self_store_by_h.Nemu.Memory.Map.{Io, IoMap, map_read, io_space_max}
use for_ysyx_self_store_by_h.Nemu.Memory.Inside.{map_read-inside, host_read-word}
use for_ysyx_self_store_by_h.Nemu.Devices.Clock.{Clock, get_time}
use for_ysyx_self_store_by_h.Nemu.Devices.World.{World}

-- What a read of the upper register does: both halves of the time are stored.
abbrev pub latch : ℕ → Io World → Io World
latch base io =
    let (us, clock) = get_time io.devices.clock in
    record {
      io_space = put_word (put_word io.io_space base (us % 2 ^ 32)) (base + 4) (us / 2 ^ 32);
      devices = record io.devices { clock = clock };
    }

-- The handler, for the two registers at `base` of io_space.
unfoldable pub rtc_io_handler : ℕ → ℕ → ℕ → Bool → Io World → Result (Io World)
rtc_io_handler base offset len is_write io =
    check (offset == 0 || offset == 4) assertion
    >> ok (if not is_write && offset == 4 then latch base io else io)

-- The body of dev_raise_intr is empty.
abbrev pub dev_raise_intr : NemuState → NemuState
dev_raise_intr s = s

abbrev pub timer_intr : NemuState → NemuState
timer_intr s = if is_running s.state then dev_raise_intr s else s

-- A map of the clock, wherever it is registered.
abbrev pub rtc_map : ℕ → ℕ → IoMap World
rtc_map low base = record {
  low = low;
  high = low + 7;
  space = base;
  callback = some (rtc_io_handler base);
}

put_word-below : (a : ℕ → ℕ) (i v : ℕ) → word_at (put_word a (i + 4) v) i ≡ word_at a i
put_word-below a i v = ground arith

get_time-lt : (c : Clock) → (get_time c).0 < 2 ^ 64
unfolding get_time
get_time-lt c = omega arith

-- Where the registers are in io_space, a read of the upper register and then one of the lower
-- register return the two halves of one reading of get_time: the second read does not read the
-- clock again, and changes nothing.
rtc-latch :
    (low base : ℕ) (io : Io World)
    → base + 8 ≤ io_space_max
    → (map_read (low + 4) 4 (some (rtc_map low base)) io
        ≡ ok ((get_time io.devices.clock).0 / 2 ^ 32, latch base io))
      × (map_read low 4 (some (rtc_map low base)) (latch base io)
          ≡ ok ((get_time io.devices.clock).0 % 2 ^ 32, latch base io))
unfolding rtc_io_handler
rtc-latch low base io h =
    let t = (get_time io.devices.clock).0 in
    let after = latch base io in
    let lower = put_word io.io_space base (t % 2 ^ 32) in
    let upper_offset : low + 4 - low ≡ 4 = omega arith in
    let no_offset : low - low ≡ 0 = omega arith in
    let first : base + 0 ≡ base = omega arith in
    let upper_is : word_at after.io_space (base + 4) ≡ t / 2 ^ 32 =
      word_at-put_word lower (base + 4) (t / 2 ^ 32)
        (omega (arith, get_time-lt io.devices.clock)) in
    let lower_is : word_at after.io_space base ≡ t % 2 ^ 32 =
      put_word-below lower base (t / 2 ^ 32)
      ∙ word_at-put_word io.io_space base (t % 2 ^ 32) (omega arith) in
    (
      map_read-inside (low + 4) 4 (rtc_map low base) io (omega arith) (omega arith) (omega arith)
            (omega arith)
          ∙ rw upper_offset (
              rw (host_read-word io_space_max after.io_space (base + 4) (omega arith))
                (ap (λ v. ok (v, after)) upper_is)),
      map_read-inside low 4 (rtc_map low base) after (omega arith) (omega arith) (omega arith)
            (omega arith)
          ∙ rw no_offset (
              rw first (
                rw (host_read-word io_space_max after.io_space base (omega arith))
                  (ap (λ v. ok (v, after)) lower_is))),
    )
