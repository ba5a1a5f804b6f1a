-- ===== src/Nemu/Keyboard/Examples.antt =====
-- The theorems about the key queue at queues whose events wrap around, and tests.
use for_ysyx_self_store_by_h.Base.{
  ℕ, zero, suc, ◌<◌, ◌≡◌, ◌⊎◌, refl, arith, true, false, some, List, [], ◌∷◌, ◌++◌, length,
  get_elem?, eq_of_some,
}
use for_ysyx_self_store_by_h.Nemu.Result.{ok, failed, assertion}
use for_ysyx_self_store_by_h.Nemu.State.{running, stop}
use for_ysyx_self_store_by_h.Nemu.Keyboard.{
  Queue, key_none, key_enqueue, key_dequeue, send_key, init_keymap, i8042_data_io_handler,
}
use for_ysyx_self_store_by_h.Nemu.Keyboard.Fifo.{Holds, key_enqueue-Holds, key_dequeue-Holds}

-- One event, in the last slot.
abbrev last_slot : Queue
last_slot = record { slots = λ i. 7; front = 1023; rear = 0 }

abbrev one_event : List ℕ
one_event = 7 ∷ []

last_slot-Holds : Holds last_slot one_event
last_slot-Holds = record {
  front_in = omega arith;
  few = omega arith;
  rear_at = refl;
  slot_at = λ i key at. sevens i key at;
}
  where
    sevens : (i key : ℕ) → get_elem? one_event i ≡ some key → 7 ≡ key
    sevens zero key at = eq_of_some at
    sevens (suc i) key at = cc

key_enqueue-Holds_example :
    ((length one_event < 1023)
      × ((q : Queue) × (key_enqueue 9 last_slot ≡ ok q) × Holds q (one_event ++ 9 ∷ [])))
    ⊎ ((length one_event ≡ 1023) × (key_enqueue 9 last_slot ≡ failed assertion))
key_enqueue-Holds_example = key_enqueue-Holds last_slot one_event 9 last_slot-Holds

key_dequeue-Holds_example :
    ((one_event ≡ []) × (key_dequeue last_slot ≡ (key_none, last_slot)))
    ⊎ ((key : ℕ) × (rest : List ℕ) × (q : Queue) × (one_event ≡ key ∷ rest)
        × (key_dequeue last_slot ≡ (key, q))
        × Holds q rest)
key_dequeue-Holds_example = key_dequeue-Holds last_slot one_event last_slot-Holds

-- A key counts while the emulator runs, and its events carry the mask when it goes down.
keys_sent :
    (send_key (λ s. 5) stop 30 true last_slot ≡ ok last_slot)
    × (send_key (λ s. 0) running 30 true last_slot ≡ ok last_slot)
    × (send_key (λ s. 5) running 30 true last_slot ≡ key_enqueue 0x8005 last_slot)
    × (send_key (λ s. 5) running 30 false last_slot ≡ key_enqueue 5 last_slot)
unfolding send_key
keys_sent = (refl, refl, refl, refl)

writes_refused :
    i8042_data_io_handler 0 0 4 true (record { io_space = λ i. 0; devices = last_slot })
    ≡ failed assertion
unfolding i8042_data_io_handler
writes_refused = refl

-- The scancodes that SDL gives to escape and to F1 to F3.
abbrev scancodes : List ℕ
scancodes = 41 ∷ 58 ∷ 59 ∷ 60 ∷ []

abbrev keymap : ℕ → ℕ
keymap = init_keymap scancodes

-- F2 is the third key, and 61, for F4, none of these.
keys_known : (keymap 59 ≡ 3) × (keymap 61 ≡ key_none)
unfolding init_keymap
keys_known = (refl, refl)
