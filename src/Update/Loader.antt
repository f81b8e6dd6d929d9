-- ===== src/Update/Loader.antt =====
-- Bootloader/HostLoaderApp/hid_bootloader_cli.c: the part of `main` that sends the image, block by
-- block, and then restarts the device. What `teensy_write` returns is a parameter.
use sphere_ware.Base.{
  ℕ, zero, suc, ◌+◌, ◌-◌, Bool, true, false, not, ◌&&◌, ltb, if◌then◌else◌, update, List, [], ◌∷◌,
  bit_and, ◌>>>◌,
}
use sphere_ware.Update.Image.{Image, bytes_within_range, get_data}

-- The bytes of `buf`, of which `block_size + 2` are written to the device.
abbrev pub Packet : Type 0
Packet = ℕ → ℕ

-- What was written, whether the loop got to its end, and whether a write failed, where the program
-- calls `die`. If neither holds the loop still runs.
pub record Sent : Type 0 where
  pub packets : List Packet
  pub completed : Bool
  pub refused : Bool

module _ (m : Image) (code_size block_size : ℕ) where
  -- The first two bytes of a packet.
  unfoldable pub address_bytes : ℕ → Packet → Packet
  address_bytes addr buf =
      if ltb code_size 0x10000
      then update (update buf 0 (bit_and addr 255)) 1 (bit_and (addr >>> 8) 255)
      else update (update buf 0 (bit_and (addr >>> 8) 255)) 1 (bit_and (addr >>> 16) 255)

  -- `buf` when it is written.
  unfoldable pub packet_for : ℕ → Packet → Packet
  packet_for addr buf =
      let buf1 = address_bytes addr buf in
      let bytes = get_data m addr block_size (λ j. buf1 (j + 2)) in
      λ j. if ltb j 2 then buf1 j else bytes (j - 2)

  -- A block with no byte of the image is skipped, but for the first one.
  unfoldable pub skipped : ℕ → Bool
  skipped addr = ltb 0 addr && not (bytes_within_range m addr (addr + block_size - 1))

  -- The loop over `addr`, on fuel. `ok addr` is what `teensy_write` returns for that block.
  unfoldable pub send_blocks : (ℕ → Bool) → ℕ → ℕ → Packet → Sent
  send_blocks ok zero addr buf = record { packets = []; completed = false; refused = false }
  send_blocks ok (suc fuel) addr buf =
      let skip = send_blocks ok fuel (addr + block_size) buf in
      let packet = packet_for addr buf in
      let rest = send_blocks ok fuel (addr + block_size) packet in
      if ltb addr code_size
      then (if skipped addr
          then skip
          else if ok addr
          then record rest { packets = packet ∷ rest.packets }
          else record { packets = []; completed = false; refused = true })
      else record { packets = []; completed = true; refused = false }

-- The packet that makes the device start the application.
unfoldable pub reboot_packet : Packet
reboot_packet j = if ltb j 2 then 0xff else 0
