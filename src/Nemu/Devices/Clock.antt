-- ===== src/Nemu/Devices/Clock.antt =====
-- The host time, ysyx-workbench/nemu/src/utils/timer.c, with CONFIG_TIMER_GETTIMEOFDAY, the default.
use for_ysyx_self_store_by_h.Base.{
  ℕ, ◌+◌, ◌-◌, ◌*◌, ◌%◌, ◌^◌, ◌<◌, ◌≤◌, ◌≡◌, inl, inr, refl, ap, sym, false, ◌∙◌, arith, Bool-cases,
  if◌then◌else◌, ◌==◌,
}

-- What gettimeofday returns, call by call, as seconds and microseconds, the number of calls so far,
-- and boot_time.
pub record Clock : Type 0 where
  pub readings : ℕ → ℕ × ℕ
  pub calls : ℕ
  pub boot_time : ℕ

-- The uint64_t of a reading.
abbrev pub microseconds : ℕ × ℕ → ℕ
microseconds now = (now.0 * 1000000 + now.1) % 2 ^ 64

unfoldable pub get_time_internal : Clock → ℕ × Clock
get_time_internal c = (microseconds (c.readings c.calls), record c { calls = c.calls + 1 })

abbrev pub set_boot_time : Clock → Clock
set_boot_time c =
    let (us, c') = get_time_internal c in
    if c.boot_time == 0 then record c' { boot_time = us } else c

unfoldable pub get_time : Clock → ℕ × Clock
get_time c =
    let c1 = set_boot_time c in
    let (now, c2) = get_time_internal c1 in ((now + 2 ^ 64 - c1.boot_time) % 2 ^ 64, c2)

-- What the clock of a host promises: it is not at 0, and does not go back.
pub record IsAscending (c : Clock) : Type 0 where
  pub set : 0 < microseconds (c.readings c.calls)
  pub ascending : (i j : ℕ) → i ≤ j → microseconds (c.readings i) ≤ microseconds (c.readings j)
  pub booted : c.boot_time ≤ microseconds (c.readings c.calls)

microseconds-lt : (now : ℕ × ℕ) → microseconds now < 2 ^ 64
microseconds-lt now = omega arith

-- The same behind a first call, which has set boot_time.
record IsBooted (c : Clock) : Type 0 where
  set : 0 < c.boot_time
  ascending : (i j : ℕ) → i ≤ j → microseconds (c.readings i) ≤ microseconds (c.readings j)
  booted : c.boot_time ≤ microseconds (c.readings c.calls)

set_boot_time-IsBooted : (c : Clock) → IsAscending c → IsBooted (set_boot_time c)
unfolding get_time_internal
set_boot_time-IsBooted c h = elim (Bool-cases (c.boot_time == 0)) [
  | inl e ↦ rw e (record {
    set = h.set;
    ascending = h.ascending;
    booted = h.ascending c.calls (c.calls + 1) (omega arith);
  })
  | inr e ↦ rw e (record { set = ground arith; ascending = h.ascending; booted = h.booted })
]

set_boot_time-booted : (c : Clock) → IsBooted c → set_boot_time c ≡ c
unfolding get_time_internal
set_boot_time-booted c h =
    let is_set : (c.boot_time == 0) ≡ false = ground (arith, h.set) in rw is_set refl

abbrev tick : Clock → Clock
tick c = record c { calls = c.calls + 1 }

get_time-booted :
    (c : Clock)
    → IsBooted c
    → get_time c ≡ (microseconds (c.readings c.calls) - c.boot_time, tick c)
unfolding get_time get_time_internal
get_time-booted c h =
    let us = microseconds (c.readings c.calls) in
    let passed : (us + 2 ^ 64 - c.boot_time) % 2 ^ 64 ≡ us - c.boot_time =
      omega (arith, h.booted, microseconds-lt (c.readings c.calls)) in
    rw (set_boot_time-booted c h) (ap (λ v. (v, tick c)) passed)

tick-IsBooted : (c : Clock) → IsBooted c → IsBooted (tick c)
tick-IsBooted c h = record {
  set = h.set;
  ascending = h.ascending;
  booted = omega (arith, h.booted, h.ascending c.calls (c.calls + 1) (omega arith));
}

-- A first call does what it does once boot_time is set.
get_time-set : (c : Clock) → IsAscending c → get_time c ≡ get_time (set_boot_time c)
unfolding get_time
get_time-set c h =
    ap
      (λ c1. (let (now, c2) = get_time_internal c1 in ((now + 2 ^ 64 - c1.boot_time) % 2 ^ 64, c2)))
      (sym (set_boot_time-booted (set_boot_time c) (set_boot_time-IsBooted c h)))

set_boot_time-readings : (c : Clock) → (set_boot_time c).readings ≡ c.readings
unfolding get_time_internal
set_boot_time-readings c = elim (Bool-cases (c.boot_time == 0)) [
  | inl e ↦ rw e refl
  | inr e ↦ rw e refl
]

-- On a host clock that is not at 0 and does not go back, boot_time being 0 or an earlier time, two
-- calls of get_time, one after the other, return the times of two readings, one after the other,
-- that have passed since one and the same moment; so these times do not go back either.
get_time-ascending :
    (c : Clock)
    → IsAscending c
    → (boot : ℕ) × (i : ℕ) × ((get_time c).0 + boot ≡ microseconds (c.readings i))
      × ((get_time (get_time c).1).0 + boot ≡ microseconds (c.readings (i + 1)))
      × ((get_time c).0 ≤ (get_time (get_time c).1).0)
get_time-ascending c h =
    let b = set_boot_time c in
    let hb = set_boot_time-IsBooted c h in
    let us = λ (i : ℕ). microseconds (c.readings i) in
    let same = set_boot_time-readings c in
    let call_1 : get_time c ≡ (microseconds (b.readings b.calls) - b.boot_time, tick b) =
      get_time-set c h ∙ get_time-booted b hb in
    let call_2 : get_time (get_time c).1
        ≡ (microseconds (b.readings (b.calls + 1)) - b.boot_time, tick (tick b)) =
      ap (λ r. get_time r.1) call_1 ∙ get_time-booted (tick b) (tick-IsBooted b hb) in
    let reading_1 = ap (λ (r : ℕ → ℕ × ℕ). microseconds (r b.calls)) same in
    let reading_2 = ap (λ (r : ℕ → ℕ × ℕ). microseconds (r (b.calls + 1))) same in
    let t1 = ap (λ r. r.0) call_1 in
    let t2 = ap (λ r. r.0) call_2 in
    let up = hb.ascending b.calls (b.calls + 1) (omega arith) in
    (
      b.boot_time,
      b.calls,
      omega (arith, t1, reading_1, hb.booted),
      omega (arith, t2, reading_2, hb.booted, up),
      omega (arith, t1, t2, up),
    )
