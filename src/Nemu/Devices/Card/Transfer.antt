-- ===== src/Nemu/Devices/Card/Transfer.antt =====
-- Reading and writing blocks of the card of ysyx-workbench/nemu/src/device/sdcard.c through its map,
-- as a driver does it: the argument, the command, then the words.
use for_ysyx_self_store_by_h.Base.{
  ℕ, zero, suc, ◌+◌, ◌-◌, ◌*◌, ◌%◌, ◌^◌, ◌<◌, ◌≤◌, Bool, true, false, some, List, [], ◌∷◌, ◌≡◌,
  refl, ap, subst, ◌∙◌, arith, leb, put_word, word_at, word_at-put_word,
}
use for_ysyx_self_store_by_h.Nemu.Result.{Result, ok, ◌>>=◌}
use for_ysyx_self_store_by_h.Nemu.Memory.Map.{Io, IoMap, map_read, map_write, io_space_max}
use for_ysyx_self_store_by_h.Nemu.Memory.Inside.{
  map_read-inside, map_write-inside, host_read-word, host_write-word,
}
use for_ysyx_self_store_by_h.Nemu.Devices.World.{World, Image}
use for_ysyx_self_store_by_h.Nemu.Devices.Card.{
  reg, set_reg, set_card, seek, prepare_rw, sdcard_handle_cmd, fread, fwrite, transfer,
  sdcard_io_handler, sdarg, sddata,
}

-- The map of the card, wherever it is registered.
abbrev pub card_map : ℕ → ℕ → IoMap World
card_map low base = record {
  low = low;
  high = low + 127;
  space = base;
  callback = some (sdcard_io_handler base);
}

-- The card has an image at hand, for one direction.
pub record IsOpen (io : Io World) (file : Image) (write : Bool) : Type 0 where
  pub has_file : io.devices.card.file ≡ some file
  pub direction : io.devices.card.write_cmd ≡ write
  pub no_ext_csd : io.devices.card.read_ext_csd ≡ false

-- What writing the words one after the other makes of an image, and what reading so many returns.
abbrev pub stored : Image → List ℕ → Image
stored file [] = file
stored file (w ∷ ws) = stored (fwrite file w) ws

abbrev pub words_at : (ℕ → ℕ) → ℕ → ℕ → List ℕ
words_at bytes i zero = []
words_at bytes i (suc n) = word_at bytes i % 2 ^ 32 ∷ words_at bytes (i + 4) n

abbrev pub IsWords : List ℕ → Type 0
IsWords [] = Unit
IsWords (w ∷ ws) = (w < 2 ^ 32) × IsWords ws

abbrev pub at : ℕ → Image → Image
at position file = record file { position = position }

word_at-put_word-mod : (a : ℕ → ℕ) (i v : ℕ) → word_at (put_word a i v) i ≡ v % 2 ^ 32
word_at-put_word-mod a i v = ground arith

word_at-put_word-above :
    (a : ℕ → ℕ) (i v : ℕ) → word_at (put_word a (i + 0) v) (i + 4) ≡ word_at a (i + 4)
word_at-put_word-above a i v = ground arith

module _ (low base : ℕ) where
  abbrev write_reg : ℕ → ℕ → Io World → Result (Io World)
  write_reg i v io = map_write (low + i * 4) 4 v (some (card_map low base)) io

  -- A command with its argument.
  abbrev pub command : ℕ → ℕ → Io World → Result (Io World)
  command cmd arg io = do io' ← write_reg 1 arg io; write_reg 0 cmd io'

  abbrev pub write_words : List ℕ → Io World → Result (Io World)
  write_words [] io = ok io
  write_words (w ∷ ws) io = do io' ← write_reg 16 w io; write_words ws io'

  abbrev pub read_words : ℕ → Io World → Result (List ℕ × Io World)
  read_words zero io = ok ([], io)
  read_words (suc n) io = do
    (w, io') ← map_read (low + 16 * 4) 4 (some (card_map low base)) io
    (ws, io'') ← read_words n io'
    ok (w ∷ ws, io'')

  -- An access to the register `i`, for i < 32.
  write_reg-handled :
      (i v : ℕ) (io : Io World)
      → i < 32
      → base + 128 ≤ io_space_max
      → write_reg i v io ≡ sdcard_io_handler base (i * 4) 4 true (set_reg base i v io)
  write_reg-handled i v io few room =
      let offset : low + i * 4 - low ≡ i * 4 = omega arith in
      map_write-inside (low + i * 4) 4 (card_map low base) io v (omega arith) (omega arith)
        (omega arith) (omega arith)
      ∙ rw offset
          (rw (host_write-word io_space_max io.io_space (base + i * 4) v (omega arith)) refl)

  read_reg-handled :
      (i : ℕ) (io io' : Io World)
      → i < 32
      → base + 128 ≤ io_space_max
      → sdcard_io_handler base (i * 4) 4 false io ≡ ok io'
      → map_read (low + i * 4) 4 (some (card_map low base)) io ≡ ok (reg base i io', io')
  read_reg-handled i io io' few room h =
      let offset : low + i * 4 - low ≡ i * 4 = omega arith in
      map_read-inside (low + i * 4) 4 (card_map low base) io (omega arith) (omega arith)
        (omega arith) (omega arith)
      ∙ rw offset
          (rw h (rw (host_read-word io_space_max io'.io_space (base + i * 4) (omega arith)) refl))

  -- The state behind an access to the data register.
  abbrev moved : Image → Io World → Io World
  moved file io =
      set_card (λ card. record card { file = some file; addr = (card.addr + 4) % 2 ^ 32 }) io

  transfer-writes :
      (io : Io World) (file : Image)
      → IsOpen io file true
      → transfer base io ≡ moved (fwrite file (reg base sddata io)) io
  unfolding transfer
  transfer-writes io file o = rw (o.no_ext_csd) (rw (o.has_file) (rw (o.direction) refl))

  transfer-reads :
      (io : Io World) (file : Image)
      → IsOpen io file false
      → file.position + 4 ≤ file.size
      → transfer base io
        ≡ moved
            (record file { position = file.position + 4 })
            (set_reg base sddata (word_at file.bytes file.position) io)
  unfolding transfer fread
  transfer-reads io file o fits =
      let whole : leb (file.position + 4) file.size ≡ true = ground arith in
      rw (o.no_ext_csd) (rw (o.has_file) (rw (o.direction) (rw whole refl)))

  module _ (room : base + 128 ≤ io_space_max) where
    pub write_words-stored :
        (ws : List ℕ) (io : Io World) (file : Image)
        → IsOpen io file true
        → IsWords ws
        → (io' : Io World) × (write_words ws io ≡ ok io') × IsOpen io' (stored file ws) true
    unfolding sdcard_io_handler
    write_words-stored [] io file o h = (io, refl, o)
    write_words-stored (w ∷ ws) io file o h =
        let io1 = set_reg base sddata w io in
        let here : reg base sddata io1 ≡ w = word_at-put_word io.io_space (base + 64) w h.0 in
        let goes : transfer base io1 ≡ moved (fwrite file w) io1 =
          transfer-writes io1 file
            (record { has_file = o.has_file; direction = o.direction; no_ext_csd = o.no_ext_csd })
          ∙ ap (λ v. moved (fwrite file v) io1) here in
        let (io', writes, opened) =
          write_words-stored ws (moved (fwrite file w) io1) (fwrite file w)
            (record { has_file = refl; direction = o.direction; no_ext_csd = o.no_ext_csd }) h.1 in
        let first : write_reg 16 w io ≡ ok (moved (fwrite file w) io1) =
          write_reg-handled 16 w io (omega arith) room ∙ ap ok goes in
        (io', ap (λ r. r >>= write_words ws) first ∙ writes, opened)

    pub read_words-at :
        (n : ℕ) (io : Io World) (file : Image)
        → IsOpen io file false
        → file.position + n * 4 ≤ file.size
        → (io' : Io World) × (read_words n io ≡ ok (words_at file.bytes file.position n, io'))
          × IsOpen io' (at (file.position + n * 4) file) false
    unfolding sdcard_io_handler
    read_words-at zero io file o fits = (
      io,
      refl,
      let here : file.position ≡ file.position + 0 = omega arith in
          subst (λ p. IsOpen io (at p file) false) here o,
    )
    read_words-at (suc n) io file o fits =
        let w = word_at file.bytes file.position in
        let file1 = at (file.position + 4) file in
        let io1 = moved file1 (set_reg base sddata w io) in
        let (io', reads, opened) =
          read_words-at n io1 file1
            (record { has_file = refl; direction = o.direction; no_ext_csd = o.no_ext_csd })
            (omega arith) in
        let first : map_read (low + 16 * 4) 4 (some (card_map low base)) io ≡ ok (w % 2 ^ 32, io1) =
          read_reg-handled 16 io io1 (omega arith) room
            (ap ok (transfer-reads io file o (omega arith)))
          ∙ ap (λ v. ok (v, io1)) (word_at-put_word-mod io.io_space (base + 64) w) in
        let end : file.position + 4 + n * 4 ≡ file.position + suc n * 4 = omega arith in
        (
          io',
          ap (λ r. (r >>= λ x. read_words n x.1 >>= λ y. ok (x.0 ∷ y.0, y.1))) first
              ∙ ap (λ r. r >>= λ y. ok (w % 2 ^ 32 ∷ y.0, y.1)) reads,
          subst (λ p. IsOpen io' (at p file) false) end opened,
        )

    -- Behind the two writes of a command.
    abbrev pub commanded : ℕ → ℕ → Io World → Io World
    commanded cmd arg io = set_reg base 0 cmd (set_reg base sdarg arg io)

    command-handled :
        (cmd arg : ℕ) (io : Io World)
        → cmd < 2 ^ 6
        → command cmd arg io ≡ sdcard_handle_cmd base cmd (commanded cmd arg io)
    unfolding sdcard_io_handler
    command-handled cmd arg io h =
        let number : reg base 0 (commanded cmd arg io) % 2 ^ 6 ≡ cmd =
          ap (λ v. v % 2 ^ 6)
            (word_at-put_word-mod (set_reg base sdarg arg io).io_space (base + 0) cmd)
          ∙ omega arith in
        ap (λ r. r >>= write_reg 0 cmd) (write_reg-handled 1 arg io (omega arith) room)
        ∙ write_reg-handled 0 cmd (set_reg base sdarg arg io) (omega arith) room
        ∙ ap (λ k. sdcard_handle_cmd base k (commanded cmd arg io)) number

    argument :
        (cmd arg : ℕ) (io : Io World) → arg < 2 ^ 32 → reg base sdarg (commanded cmd arg io) ≡ arg
    argument cmd arg io h =
        word_at-put_word-above (set_reg base sdarg arg io).io_space base cmd
        ∙ word_at-put_word io.io_space (base + 4) arg h

    pub opened :
        (cmd arg : ℕ) (io : Io World) (file : Image) (write : Bool)
        → io.devices.card.file ≡ some file
        → io.devices.card.read_ext_csd ≡ false
        → arg < 2 ^ 32
        → IsOpen (prepare_rw base write (commanded cmd arg io)) (at (arg * 2 ^ 9) file) write
    unfolding prepare_rw
    opened cmd arg io file write f e h = record {
      has_file =
          ap (λ blk. seek (blk * 2 ^ 9) io.devices.card.file) (argument cmd arg io h)
          ∙ ap (seek (arg * 2 ^ 9)) f;
      direction = refl;
      no_ext_csd = e;
    }

    pub command-write :
        (arg : ℕ) (io : Io World)
        → command 25 arg io ≡ ok (prepare_rw base true (commanded 25 arg io))
    unfolding sdcard_handle_cmd
    command-write arg io = command-handled 25 arg io (omega arith)

    pub command-read :
        (arg : ℕ) (io : Io World)
        → command 18 arg io ≡ ok (prepare_rw base false (commanded 18 arg io))
    unfolding sdcard_handle_cmd
    command-read arg io = command-handled 18 arg io (omega arith)
