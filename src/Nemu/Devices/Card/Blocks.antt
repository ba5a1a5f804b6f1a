-- ===== src/Nemu/Devices/Card/Blocks.antt =====
-- What is written to the card of ysyx-workbench/nemu/src/device/sdcard.c is read from it again.
use for_ysyx_self_store_by_h.Base.{
  ℕ, ◌+◌, ◌*◌, ◌%◌, ◌^◌, ◌<◌, ◌≤◌, true, false, some, List, [], ◌∷◌, length, ◌≡◌, refl, ap, ◌∙◌,
  arith, word_at, word_at-put_word,
}
use for_ysyx_self_store_by_h.Nemu.Result.{Result, ok, ◌>>=◌}
use for_ysyx_self_store_by_h.Nemu.Memory.Map.{Io, io_space_max}
use for_ysyx_self_store_by_h.Nemu.Devices.World.{World, Image}
use for_ysyx_self_store_by_h.Nemu.Devices.Card.{fwrite, padded, prepare_rw}
use for_ysyx_self_store_by_h.Nemu.Devices.Card.Transfer.{
  command, write_words, read_words, stored, words_at, IsWords, at, commanded, write_words-stored,
  read_words-at, opened, command-write, command-read,
}

-- Later words leave alone what is before them.
stored-below :
    (file : Image) (ws : List ℕ) (j : ℕ)
    → j < file.position
    → j < file.size
    → (stored file ws).bytes j ≡ file.bytes j
unfolding fwrite
stored-below file [] j lo hi = refl
stored-below file (w ∷ ws) j lo hi =
    stored-below (fwrite file w) ws j (omega arith) (ground arith) ∙ ground arith

stored-room :
    (file : Image) (ws : List ℕ)
    → file.position ≤ file.size
    → file.position + length ws * 4 ≤ (stored file ws).size
unfolding fwrite
stored-room file [] h = omega arith
stored-room file (w ∷ ws) h = omega (arith, stored-room (fwrite file w) ws (ground arith))

stored-word :
    (file : Image) (w : ℕ) (ws : List ℕ)
    → w < 2 ^ 32
    → word_at (stored (fwrite file w) ws).bytes file.position ≡ w
unfolding fwrite
stored-word file w ws h =
    let below =
      λ (j : ℕ) (lo : j < file.position + 4). stored-below (fwrite file w) ws j lo (ground arith) in
    omega (
      arith,
      below file.position (omega arith),
      below (file.position + 1) (omega arith),
      below (file.position + 2) (omega arith),
      below (file.position + 3) (omega arith),
      word_at-put_word (padded file) file.position w h,
    )

words_at-stored :
    (file : Image) (ws : List ℕ)
    → IsWords ws
    → words_at (stored file ws).bytes file.position (length ws) ≡ ws
unfolding fwrite
words_at-stored file [] h = refl
words_at-stored file (w ∷ ws) h =
    let first : word_at (stored (fwrite file w) ws).bytes file.position % 2 ^ 32 ≡ w =
      omega (arith, stored-word file w ws h.0, h.0) in
    ap (λ v. v ∷ words_at (stored (fwrite file w) ws).bytes (file.position + 4) (length ws)) first
    ∙ ap (λ l. w ∷ l) (words_at-stored (fwrite file w) ws h.1)

module _ (low base : ℕ) where
  -- WRITE_MULTIPLE_BLOCK and the words, then READ_MULTIPLE_BLOCK and as many words.
  abbrev pub write_then_read : ℕ → List ℕ → Io World → Result (List ℕ × Io World)
  write_then_read block ws io = do
    io1 ← command low base 25 block io
    io2 ← write_words low base ws io1
    io3 ← command low base 18 block io2
    read_words low base (length ws) io3

  -- With the registers in io_space, an image, and no read of EXT_CSD under way, writing at least one
  -- 32-bit word from a block on and then reading as many from that block on, through the map of the
  -- card, succeeds and returns the words that were written, even behind the end of the image.
  pub card-roundtrip :
      (block w : ℕ) (ws : List ℕ) (io : Io World) (file : Image)
      → base + 128 ≤ io_space_max
      → io.devices.card.file ≡ some file
      → io.devices.card.read_ext_csd ≡ false
      → block < 2 ^ 32
      → IsWords (w ∷ ws)
      → (io' : Io World) × (write_then_read block (w ∷ ws) io ≡ ok (w ∷ ws, io'))
  unfolding fwrite
  card-roundtrip block w ws io file room f e h words =
      let io1 = prepare_rw base true (commanded low base room 25 block io) in
      let start = at (block * 2 ^ 9) file in
      let (io2, writes, open2) =
        write_words-stored low base room (w ∷ ws) io1 start
          (opened low base room 25 block io file true f e h) words in
      let end = stored start (w ∷ ws) in
      let io3 = prepare_rw base false (commanded low base room 18 block io2) in
      let (io4, reads, open4) =
        read_words-at low base room (length (w ∷ ws)) io3 (at (block * 2 ^ 9) end)
          (opened low base room 18 block io2 end false open2.has_file open2.no_ext_csd h)
          (omega (arith, stored-room (fwrite start w) ws (ground arith))) in
      (
        io4,
        ap
              (λ r. r >>= λ x. write_words low base (w ∷ ws) x >>= λ y.
                command low base 18 block y >>= λ z. read_words low base (length (w ∷ ws)) z)
              (command-write low base room block io)
            ∙ ap
                (λ r. r >>= λ y.
                  command low base 18 block y >>= λ z. read_words low base (length (w ∷ ws)) z)
                writes
            ∙ ap (λ r. r >>= λ z. read_words low base (length (w ∷ ws)) z)
                (command-read low base room block io2)
            ∙ reads
            ∙ ap (λ l. ok (l, io4)) (words_at-stored start (w ∷ ws) words),
      )
