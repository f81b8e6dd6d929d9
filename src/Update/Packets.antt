-- ===== src/Update/Packets.antt =====
-- The packets of Bootloader/HostLoaderApp/hid_bootloader_cli.c as Bootloader/BootloaderHID.c reads
-- them: the address and the words of the page.
use sphere_ware.Base.{ℕ, ◌+◌, ◌-◌, ◌*◌, ◌/◌, ◌%◌, ◌^◌, ◌<◌, ◌≤◌, ◌≡◌, arith, ℕ_discrete}
use sphere_ware.Base.Bits.{bit_and-low}
use sphere_ware.Update.Flash.{byte_of}
use sphere_ware.Update.Image.{Image, get_data_lem, wanted}
use sphere_ware.Update.Loader.{Packet, address_bytes, packet_for}

-- The words that `Endpoint_Read_16_LE` delivers for a packet.
abbrev pub words : Packet → ℕ → ℕ
words packet i = packet (2 * i) + 256 * packet (2 * i + 1)

module _ (m : Image) (small : (k : ℕ) → m.firmware_image k < 256) where
  pub packet_address :
      (addr : ℕ) (buf : Packet) → addr < 32768 → words (packet_for m 32768 128 addr buf) 0 ≡ addr
  unfolding packet_for address_bytes
  packet_address addr buf h = ground (arith, bit_and-low 8 addr, bit_and-low 8 (addr / 2 ^ 8))

  wanted-lt : (k : ℕ) → wanted m k < 256
  wanted-lt k = ground (arith, small k)

  packet_byte :
      (addr i j k : ℕ) (buf : Packet)
      → addr + 128 ≤ 32768
      → j < 128
      → i ≡ j + 2
      → k ≡ addr + j
      → packet_for m 32768 128 addr buf i ≡ wanted m k
  unfolding packet_for
  packet_byte addr i j k buf h lt e e' =
      let bytes : ℕ → ℕ = λ n. address_bytes m 32768 128 addr buf (n + 2) in
      let back : i - 2 ≡ j = omega arith in
      rw (e', back) (ground (arith, get_data_lem m addr 128 bytes j lt))

  pub packet_data :
      (addr k : ℕ) (buf : Packet)
      → addr % 128 ≡ 0
      → addr + 128 ≤ 32768
      → k / 128 ≡ addr / 128
      → byte_of (words (packet_for m 32768 128 addr buf) (k % 128 / 2 + 1)) k ≡ wanted m k
  packet_data addr k buf aligned h same =
      let n : ℕ = k % 128 / 2 in
      elim (ℕ_discrete (k % 2) 0) [
        | yes even ↦ ground (
          arith,
          packet_byte addr (2 * (n + 1)) (2 * n) k buf h (omega arith) (omega arith) (omega arith),
          wanted-lt k,
        )
        | no odd ↦ ground (
          arith,
          packet_byte addr (2 * (n + 1)) (2 * n) (addr + 2 * n) buf h (omega arith) (omega arith)
              (omega arith),
          packet_byte addr (2 * (n + 1) + 1) (2 * n + 1) k buf h (omega arith) (omega arith)
              (omega arith),
          wanted-lt k,
          wanted-lt (addr + 2 * n),
        )
      ]
