-- ===== src/Nemu/Devices/Card.antt =====
-- The SD card, ysyx-workbench/nemu/src/device/sdcard.c, with the command numbers of mmc.h.
pub mod Transfer
pub mod Blocks
use for_ysyx_self_store_by_h.Base.{
  ℕ, zero, suc, ◌+◌, ◌-◌, ◌*◌, ◌/◌, ◌%◌, ◌^◌, Bool, true, false, Option, none, some, ◌||◌, bit_or,
  if◌then◌else◌, ltb, leb, ◌==◌, update, put_word, word_at,
}
use for_ysyx_self_store_by_h.Nemu.Result.{Result, ok, failed, unsupported, ◌>>=◌}
use for_ysyx_self_store_by_h.Nemu.Memory.Map.{Io}
use for_ysyx_self_store_by_h.Nemu.Devices.World.{World, Card, Image}

abbrev pub memory_size : ℕ
memory_size = 16 * 1024 * 1024 * 1024

abbrev pub read_bl_len : ℕ
read_bl_len = 15

abbrev pub block_len : ℕ
block_len = 2 ^ read_bl_len

abbrev pub nr_block : ℕ
nr_block = memory_size / block_len

abbrev pub c_size_mult : ℕ
c_size_mult = 7

abbrev pub mult : ℕ
mult = 2 ^ (c_size_mult + 2)

abbrev pub c_size : ℕ
c_size = nr_block / mult - 1

-- The registers, as indices of words behind `base`.
abbrev pub sdcmd : ℕ
sdcmd = 0

abbrev pub sdarg : ℕ
sdarg = 1

abbrev pub sdrsp0 : ℕ
sdrsp0 = 4

abbrev pub sdrsp1 : ℕ
sdrsp1 = 5

abbrev pub sdrsp2 : ℕ
sdrsp2 = 6

abbrev pub sdrsp3 : ℕ
sdrsp3 = 7

abbrev pub sddata : ℕ
sddata = 16

abbrev pub reg : ℕ → ℕ → Io World → ℕ
reg base i io = word_at io.io_space (base + i * 4)

abbrev pub set_reg : ℕ → ℕ → ℕ → Io World → Io World
set_reg base i v io = record io { io_space = put_word io.io_space (base + i * 4) v }

abbrev pub set_card : (Card → Card) → Io World → Io World
set_card f io = record io { devices = record io.devices { card = f io.devices.card } }

-- fseek (…, SEEK_SET).
abbrev pub seek : ℕ → Option Image → Option Image
seek position none = none
seek position (some file) = some (record file { position = position })

unfoldable pub prepare_rw : ℕ → Bool → Io World → Io World
prepare_rw base is_write io =
    let blk = reg base sdarg io in
    set_card
      (λ card. record card {
        file = seek (blk * 2 ^ 9) card.file;
        blk_addr = blk;
        addr = 0;
        write_cmd = is_write;
      })
      io

-- The commands that do nothing, 52 among them.
abbrev pub is_ignored : ℕ → Bool
is_ignored cmd = cmd == 0 || cmd == 52 || cmd == 5 || cmd == 55 || cmd == 3 || cmd == 7 || cmd == 12

abbrev pub send_cid : ℕ → Io World → Io World
send_cid base io =
    set_reg base sdrsp3 0x15000000
      (set_reg base sdrsp2 0 (set_reg base sdrsp1 0 (set_reg base sdrsp0 1 io)))

abbrev pub send_csd : ℕ → Io World → Io World
send_csd base io = set_reg base sdrsp3 0x9026012a (
    set_reg base sdrsp2 (bit_or (bit_or 0x0f508000 (c_size / 4)) (read_bl_len * 2 ^ 16)) (
      set_reg base sdrsp1 (bit_or 0x124b97e3 (c_size % 4 * 2 ^ 30))
        (set_reg base sdrsp0 0x92404001 io)))

abbrev pub send_status : ℕ → Io World → Io World
send_status base io =
    set_reg base sdrsp1 0
      (set_reg base sdrsp2 0 (set_reg base sdrsp3 0 (set_reg base sdrsp0 0x900 io)))

-- MMC_SEND_OP_COND is 1, MMC_ALL_SEND_CID 2, MMC_SEND_CSD 9, MMC_SEND_EXT_CSD 8,
-- MMC_SET_BLOCK_COUNT 23, MMC_READ_MULTIPLE_BLOCK 18, MMC_WRITE_MULTIPLE_BLOCK 25 and
-- MMC_SEND_STATUS 13.
unfoldable pub sdcard_handle_cmd : ℕ → ℕ → Io World → Result (Io World)
sdcard_handle_cmd base cmd io =
    if is_ignored cmd
    then ok io
    else if cmd == 1
    then ok (set_reg base sdrsp0 0x80ff8000 io)
    else if cmd == 2
    then ok (send_cid base io)
    else if cmd == 9
    then ok (send_csd base io)
    else if cmd == 8
    then ok (set_card (λ card. record card { read_ext_csd = true; addr = 0 }) io)
    else if cmd == 23
    then ok (set_card (λ card. record card { blkcnt = reg base sdarg io % 2 ^ 16 }) io)
    else if cmd == 18
    then ok (prepare_rw base false io)
    else if cmd == 25
    then ok (prepare_rw base true io)
    else if cmd == 13
    then ok (send_status base io)
    else failed unsupported

-- The words of EXT_CSD that are not 0.
abbrev pub ext_csd : ℕ → ℕ
ext_csd addr = if addr == 192 then 2 else if addr == 212 then memory_size / 512 else 0

-- Less than four bytes, as many as the file has left.
abbrev pub copy_in : ℕ → Image → ℕ → (ℕ → ℕ) → (ℕ → ℕ)
copy_in zero file i space = space
copy_in (suc n) file i space =
    update (copy_in n file i space) (i + n) (file.bytes (file.position + n))

-- fread of one word to the register `i`.
unfoldable pub fread : Image → ℕ → (ℕ → ℕ) → Image × (ℕ → ℕ)
fread file i space =
    if leb (file.position + 4) file.size
    then (
      record file { position = file.position + 4 },
      put_word space i (word_at file.bytes file.position),
    )
    else (
      record file { position = file.position + (file.size - file.position) },
      copy_in (file.size - file.position) file i space,
    )

-- A write behind the end of a file fills the gap with 0.
abbrev pub padded : Image → ℕ → ℕ
padded file j = if ltb j file.size then file.bytes j else 0

-- fwrite of one word.
unfoldable pub fwrite : Image → ℕ → Image
fwrite file w = record {
  bytes = put_word (padded file) file.position w;
  size = if ltb file.size (file.position + 4) then file.position + 4 else file.size;
  position = file.position + 4;
}

-- SDDATA: a word of EXT_CSD, or of the image, in the direction of the last command.
abbrev pub transfer_file : ℕ → Option Image → Io World → Io World
transfer_file base none io = io
transfer_file base (some file) io =
    if io.devices.card.write_cmd
    then set_card (λ card. record card { file = some (fwrite file (reg base sddata io)) }) io
    else let (file', space) = fread file (base + sddata * 4) io.io_space in
      set_card (λ card. record card { file = some file' }) (record io { io_space = space })

unfoldable pub transfer : ℕ → Io World → Io World
transfer base io =
    let card = io.devices.card in
    set_card (λ card. record card { addr = (card.addr + 4) % 2 ^ 32 })
      (if card.read_ext_csd
        then set_card
            (λ card. record card { read_ext_csd = if card.addr == 512 - 4 then false else true })
            (set_reg base sddata (ext_csd card.addr) io)
        else transfer_file base card.file io)

abbrev pub is_plain : ℕ → Bool
is_plain idx = idx == sdarg || idx == sdrsp0 || idx == sdrsp1 || idx == sdrsp2 || idx == sdrsp3

unfoldable pub sdcard_io_handler : ℕ → ℕ → ℕ → Bool → Io World → Result (Io World)
sdcard_io_handler base offset len is_write io =
    let idx = offset / 4 in
    if idx == sdcmd
    then sdcard_handle_cmd base (reg base sdcmd io % 2 ^ 6) io
    else if is_plain idx
    then ok io
    else if idx == sddata
    then ok (transfer base io)
    else failed unsupported
