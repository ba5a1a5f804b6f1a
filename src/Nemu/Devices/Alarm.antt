-- ===== src/Nemu/Devices/Alarm.antt =====
-- The handlers of the host's alarm signal, ysyx-workbench/nemu/src/device/alarm.c.
use for_ysyx_self_store_by_h.Base.{
  ℕ, ◌/◌, ◌<◌, Bool, List, [], ◌∷◌, ◌++◌, ltb, length, ◌≡◌, ◌≤◌, ◌⊎◌, inl, inr, Bool-cases, refl,
  arith,
}
use for_ysyx_self_store_by_h.Nemu.Result.{Result, ok, failed, assertion, check, ◌>>◌}

-- MAX_HANDLER, and TIMER_HZ of include/device/alarm.h.
abbrev pub max_handler : ℕ
max_handler = 8

abbrev pub timer_hz : ℕ
timer_hz = 60

module _ {S : Type 0} where
  -- The array `handler` as far as `idx`; a handler changes the state `S`.
  unfoldable pub add_alarm_handle : (S → S) → List (S → S) → Result (List (S → S))
  add_alarm_handle h handlers =
      check (ltb (length handlers) max_handler) assertion >> ok (handlers ++ h ∷ [])

  abbrev pub alarm_sig_handler : List (S → S) → S → S
  alarm_sig_handler [] s = s
  alarm_sig_handler (h ∷ handlers) s = alarm_sig_handler handlers (h s)

  alarm_sig_handler-append :
      (handlers : List (S → S)) (h : S → S) (s : S)
      → alarm_sig_handler (handlers ++ h ∷ []) s ≡ h (alarm_sig_handler handlers s)
  alarm_sig_handler-append [] h s = refl
  alarm_sig_handler-append (g ∷ handlers) h s = alarm_sig_handler-append handlers h (g s)

  -- Where fewer than eight handlers are registered, one more is run behind all of these at a signal;
  -- with eight, the assertion fails.
  add_alarm_handle-runs :
      (h : S → S) (handlers : List (S → S))
      → ((more : List (S → S)) × (length handlers < 8)
          × (add_alarm_handle h handlers ≡ ok more)
          × ((s : S) → alarm_sig_handler more s ≡ h (alarm_sig_handler handlers s)))
        ⊎ ((8 ≤ length handlers) × (add_alarm_handle h handlers ≡ failed assertion))
  unfolding add_alarm_handle
  add_alarm_handle-runs h handlers = elim (Bool-cases (ltb (length handlers) max_handler)) [
    | inl room ↦ inl (
      handlers ++ h ∷ [],
      ground (arith, room),
      rw room refl,
      λ s. alarm_sig_handler-append handlers h s,
    )
    | inr full ↦ inr (ground (arith, full), rw full refl)
  ]

-- Whether sigaction and setitimer have returned 0; the period of the timer in microseconds.
unfoldable pub init_alarm : Bool → Bool → Result ℕ
init_alarm sigaction_done setitimer_done =
    check sigaction_done assertion >> (check setitimer_done assertion >> ok (1000000 / timer_hz))
