-- ===== src/Nemu/Devices/Update/Keys.antt =====
-- Which key events device_update of ysyx-workbench/nemu/src/device/device.c hands to the guest.
use for_ysyx_self_store_by_h.Base.{
  ℕ, ◌+◌, ◌%◌, ◌^◌, ◌-◌, ◌<◌, ◌≤◌, Bool, List, [], ◌∷◌, ◌++◌, if◌then◌else◌, ltb, ◌==◌, ◌≡◌, ◌⊎◌,
  inl, inr, refl, ap, sym, subst, ◌∙◌, arith, bit_or, length, length-append, append_assoc,
  append_nil, Bool-cases,
}
use for_ysyx_self_store_by_h.Nemu.Result.{Result, ok, failed, assertion, ◌>>=◌}
use for_ysyx_self_store_by_h.Nemu.State.{Mode, running, quit, is_running}
use for_ysyx_self_store_by_h.Nemu.Keyboard.{Queue, send_key, key_none, keydown_mask}
use for_ysyx_self_store_by_h.Nemu.Keyboard.Fifo.{Holds, key_enqueue-Holds}
use for_ysyx_self_store_by_h.Nemu.Devices.Clock.{get_time}
use for_ysyx_self_store_by_h.Nemu.Devices.Update.{
  Event, sdl_quit, other, key, Host, handle_event, poll_events, device_update,
}

-- The clock has been read; and that is the time of the last update.
abbrev pub ticked : Host → Host
ticked h = record h { world = record h.world { clock = (get_time h.world.clock).1 } }

abbrev pub updated : Host → Host
updated h = record (ticked h) { last = (get_time h.world.clock).0 }

abbrev pub mode_after : List Event → Mode
mode_after [] = running
mode_after (sdl_quit ∷ events) = quit
mode_after (other ∷ events) = mode_after events
mode_after (key scancode is_keydown ∷ events) = mode_after events

-- What the loop makes of a running emulator whose queue holds `keys`, if there are keys with the
-- given codes, and a mode behind them.
pub record IsPolled (codes : List ℕ) (m : Mode) (keys : List ℕ) (h h' : Host) : Type 0 where
  pub holds : Holds h'.world.keys (keys ++ codes)
  pub mode : h'.nemu ≡ record h.nemu { state = m }
  pub last : h'.last ≡ h.last
  pub others : h'.world ≡ record h.world { keys = h'.world.keys }

-- The two ways in which the loop can end.
abbrev pub PollEnds : List ℕ → Mode → List ℕ → Host → Result Host → Type 0
PollEnds codes m keys h r =
    ((h' : Host) × (length keys + length codes ≤ 1023) × (r ≡ ok h') × IsPolled codes m keys h h')
    ⊎ ((1023 < length keys + length codes) × (r ≡ failed assertion))

-- One key more, which is already in the queue.
PollEnds-first :
    {codes : List ℕ} {m : Mode} (code : ℕ) (keys : List ℕ) (q' : Queue) (h : Host) {r : Result Host}
    → PollEnds codes m (keys ++ code ∷ []) (record h { world = record h.world { keys = q' } }) r
    → PollEnds (code ∷ codes) m keys h r
PollEnds-first {codes = codes} code keys q' h (inl (h', fits, e, p)) = inl (
  h',
  omega (arith, fits, length-append keys (code ∷ [])),
  e,
  record {
    holds = subst (Holds h'.world.keys) (append_assoc keys (code ∷ []) codes) p.holds;
    mode = p.mode;
    last = p.last;
    others = p.others;
  },
)
PollEnds-first code keys q' h (inr (over, e)) =
    inr (omega (arith, over, length-append keys (code ∷ [])), e)

module _ (keymap : ℕ → ℕ) where
  -- The code that the guest gets for a key.
  abbrev pub key_code : ℕ → Bool → ℕ
  key_code scancode is_keydown =
      bit_or (keymap (scancode % 2 ^ 8)) (if is_keydown then keydown_mask else 0)

  -- The codes of the keys that keymap knows, up to SDL_QUIT.
  abbrev pub key_codes : List Event → List ℕ
  key_codes [] = []
  key_codes (sdl_quit ∷ events) = []
  key_codes (other ∷ events) = key_codes events
  key_codes (key scancode is_keydown ∷ events) =
      if keymap (scancode % 2 ^ 8) == key_none
      then key_codes events
      else key_code scancode is_keydown ∷ key_codes events

  -- Behind SDL_QUIT, no event changes anything.
  poll_events-quit :
      (events : List Event) (h : Host) → h.nemu.state ≡ quit → poll_events keymap events h ≡ ok h
  unfolding poll_events handle_event send_key
  poll_events-quit [] h e = refl
  poll_events-quit (sdl_quit ∷ events) h e =
      poll_events-quit events (record h { nemu = record h.nemu { state = quit } }) refl
      ∙ ap (λ m. ok (record h { nemu = record h.nemu { state = m } })) (sym e)
  poll_events-quit (other ∷ events) h e = poll_events-quit events h e
  poll_events-quit (key scancode is_keydown ∷ events) h e =
      rw (ap is_running e) (poll_events-quit events h e)

  poll_events-PollEnds :
      (events : List Event) (h : Host) (keys : List ℕ)
      → h.nemu.state ≡ running
      → Holds h.world.keys keys
      → PollEnds (key_codes events) (mode_after events) keys h (poll_events keymap events h)
  unfolding poll_events handle_event send_key
  poll_events-PollEnds [] h keys run q = inl (
    h,
    omega (arith, q.few),
    refl,
    record {
      holds = subst (Holds h.world.keys) (sym (append_nil keys)) q;
      mode = ap (λ s. record h.nemu { state = s }) run;
      last = refl;
      others = refl;
    },
  )
  poll_events-PollEnds (sdl_quit ∷ events) h keys run q =
      let h' : Host = record h { nemu = record h.nemu { state = quit } } in
      inl (
        h',
        omega (arith, q.few),
        poll_events-quit events h' refl,
        record {
          holds = subst (Holds h.world.keys) (sym (append_nil keys)) q;
          mode = refl;
          last = refl;
          others = refl;
        },
      )
  poll_events-PollEnds (other ∷ events) h keys run q =
      elim (poll_events-PollEnds events h keys run q) [
        | inl (h', fits, e, p) ↦ inl (
          h',
          fits,
          e,
          record { holds = p.holds; mode = p.mode; last = p.last; others = p.others },
        )
        | inr full ↦ inr full
      ]
  poll_events-PollEnds (key scancode is_keydown ∷ events) h keys run q =
      elim (Bool-cases (keymap (scancode % 2 ^ 8) == key_none)) [
        | inl unknown ↦
            rw (ap is_running run) (rw unknown (poll_events-PollEnds events h keys run q))
        | inr known ↦ rw (ap is_running run) (
            rw known (elim (key_enqueue-Holds h.world.keys keys (key_code scancode is_keydown) q) [
              | inl (few, (q', e, holds)) ↦ rw e (
                  PollEnds-first (key_code scancode is_keydown) keys q' h (
                    poll_events-PollEnds events (record h { world = record h.world { keys = q' } })
                      (keys ++ key_code scancode is_keydown ∷ []) run holds))
              | inr (full, e) ↦ rw e (inr (omega (arith, full), refl))
            ]))
      ]

  -- Where the key queue of a running emulator holds some keys, device_update less than 1/60 second
  -- after the last update that was made leaves the events where they are; later, it appends the codes
  -- of the keys that keymap knows, as far as SDL_QUIT, which ends the emulator, or fails the assertion
  -- of the queue if there are more than 1023 then. Besides the clock, and the time of the last update
  -- where it makes one, it changes nothing else.
  pub device_update-PollEnds :
      (events : List Event) (h : Host) (keys : List ℕ)
      → h.nemu.state ≡ running
      → Holds h.world.keys keys
      → (r : Result Host) × (device_update keymap events h ≡ (
          if ltb (((get_time h.world.clock).0 + 2 ^ 64 - h.last) % 2 ^ 64) 16666
          then ok (ticked h, events)
          else (r >>= λ h'. ok (h', []))))
        × PollEnds (key_codes events) (mode_after events) keys (updated h) r
  unfolding device_update
  device_update-PollEnds events h keys run q = (
    poll_events keymap events (updated h),
    refl,
    poll_events-PollEnds events (updated h) keys run q,
  )
