-- ===== src/Nemu/Keyboard.antt =====
-- ysyx-workbench/nemu/src/device/keyboard.c: the queue of key events between the host and the guest,
-- and the device that hands them out. Not for CONFIG_TARGET_AM.
pub mod Fifo
pub mod Keymap
mod Examples
use for_ysyx_self_store_by_h.Base.{
  ℕ, ◌+◌, ◌*◌, ◌%◌, ◌^◌, Bool, not, ◌&&◌, if◌then◌else◌, ◌==◌, bit_or, update, put_word, List, [],
  ◌∷◌,
}
use for_ysyx_self_store_by_h.Nemu.Result.{Result, ok, failed, assertion, check, ◌>>=◌, ◌>>◌}
use for_ysyx_self_store_by_h.Nemu.State.{Mode, is_running}
use for_ysyx_self_store_by_h.Nemu.Memory.Map.{Io}

-- KEY_QUEUE_LEN, KEYDOWN_MASK and NEMU_KEY_NONE.
abbrev pub key_queue_len : ℕ
key_queue_len = 1024

abbrev pub keydown_mask : ℕ
keydown_mask = 0x8000

abbrev pub key_none : ℕ
key_none = 0

-- key_queue, key_f and key_r.
pub record Queue : Type 0 where
  pub slots : ℕ → ℕ
  pub front : ℕ
  pub rear : ℕ

unfoldable pub key_enqueue : ℕ → Queue → Result Queue
key_enqueue am_scancode q =
    let rear = (q.rear + 1) % key_queue_len in
    if rear == q.front
    then failed assertion
    else ok (record q { slots = update q.slots q.rear am_scancode; rear = rear })

unfoldable pub key_dequeue : Queue → ℕ × Queue
key_dequeue q =
    if q.front == q.rear
    then (key_none, q)
    else (q.slots q.front, record q { front = (q.front + 1) % key_queue_len })

-- `keymap` is the table that init_keymap fills from the scancodes of SDL.
unfoldable pub send_key : (ℕ → ℕ) → Mode → ℕ → Bool → Queue → Result Queue
send_key keymap mode scancode is_keydown q =
    if is_running mode && not (keymap scancode == key_none)
    then key_enqueue (bit_or (keymap scancode) (if is_keydown then keydown_mask else 0)) q
    else ok q

-- The handler of the data register, whose word is at `base` of io_space.
unfoldable pub i8042_data_io_handler : ℕ → ℕ → ℕ → Bool → Io Queue → Result (Io Queue)
i8042_data_io_handler base offset len is_write io = do
  check (not is_write) assertion
  check (offset == 0) assertion
  let (key, q) = key_dequeue io.devices
  ok (record { io_space = put_word io.io_space base key; devices = q })

-- init_keymap: the keys of NEMU_KEYS, numbered from 1, at the scancodes that SDL gives them.
abbrev pub fill_keymap : ℕ → List ℕ → (ℕ → ℕ) → ℕ → ℕ
fill_keymap number [] keymap = keymap
fill_keymap number (scancode ∷ scancodes) keymap =
    fill_keymap (number + 1) scancodes (update keymap scancode number)

unfoldable pub init_keymap : List ℕ → ℕ → ℕ
init_keymap scancodes = fill_keymap 1 scancodes (λ scancode. key_none)
