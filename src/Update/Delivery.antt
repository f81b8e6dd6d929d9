-- ===== src/Update/Delivery.antt =====
-- The update from end to end: the packets of Bootloader/HostLoaderApp/hid_bootloader_cli.c handled
-- one after the other by Bootloader/BootloaderHID.c, for the ATmega32U4 with 32 kB of flash
-- memory and pages of 128 bytes.
use sphere_ware.Base.{
  ℕ, zero, suc, ◌+◌, ◌*◌, ◌/◌, ◌%◌, ◌<◌, ◌≤◌, ◌≡◌, Bool, true, false, not, ◌&&◌, ◌||◌, leb, ltb,
  ◌==◌, if◌then◌else◌, List, [], ◌∷◌, arith, refl, Bool-cases, inl, inr, ◌∙◌, ap, ℕ_discrete,
  dec_lt, ◌-◌,
}
use sphere_ware.Update.Flash.{Spm}
use sphere_ware.Update.Handler.{Boot, control_request}
use sphere_ware.Update.Page.{program_page_lem}
use sphere_ware.Update.Image.{Image, any_within, bytes_within_range, wanted}
use sphere_ware.Update.Packets.{words, packet_address, packet_data}
use sphere_ware.Update.Loader.{Packet, packet_for, skipped, send_blocks, reboot_packet}

-- Whether the image has a byte at one of the addresses from `i` on, with those that are left.
abbrev pub any_byte : Image → ℕ → ℕ → Bool
any_byte m zero i = false
any_byte m (suc left) i = m.firmware_mask i || any_byte m left (suc i)

any_within-byte : (m : Image) (left i : ℕ) → any_within m left i ≡ any_byte m left i
unfolding any_within
any_within-byte m zero i = refl
any_within-byte m (suc left) i = ground (arith, any_within-byte m left (suc i))

range-byte :
    (m : Image) (block : ℕ)
    → block + 128 ≤ 32768
    → bytes_within_range m block (block + 127) ≡ any_byte m 128 block
unfolding bytes_within_range
range-byte m block low =
    let count : block + 127 + 1 - block ≡ 128 = omega arith in
    rw (count, any_within-byte m 128 block) (ground arith)

same_choice :
    (k block : ℕ) (any : Bool) (x y : ℕ)
    → (if (leb 0 k && ltb k 32768) && not (ltb 0 block && not any) then x else y)
      ≡ (if ltb k 32768 && (block == 0 || any) then x else y)
same_choice k block true x y = ground arith
same_choice k block false x y = ground arith

-- What the update makes of the byte at `k`: the blocks that are sent hold the image, and 255
-- where it has no byte.
abbrev pub delivered : Image → ℕ → ℕ → ℕ
delivered m k before =
    let block = k / 128 * 128 in
    if ltb k 32768 && (block == 0 || any_byte m 128 block) then wanted m k else before

module _ (spm : Spm) where
  open spm use {Flash, byte}

  -- A packet arrives as a SetReport request to the HID interface.
  unfoldable pub receive : Packet → Boot spm → Boot spm
  receive packet b = control_request spm 0x21 0x09 (words packet) b

  unfoldable pub receive_all : List Packet → Boot spm → Boot spm
  receive_all [] b = b
  receive_all (packet ∷ rest) b = receive_all rest (receive packet b)

  module _ (m : Image) (small : (k : ℕ) → m.firmware_image k < 256) where
    receive_block :
        (addr : ℕ) (buf : Packet) (b : Boot spm) (k : ℕ)
        → addr % 128 ≡ 0
        → addr + 128 ≤ 32768
        → let b' = receive (packet_for m 32768 128 addr buf) b in
          (byte b'.flash k ≡ (if k / 128 == (addr / 128) then wanted m k else byte b.flash k))
          × (b'.run_bootloader ≡ b.run_bootloader)
    unfolding receive control_request
    receive_block addr buf b k aligned h = ground (
      arith,
      packet_address m small addr buf (omega arith),
      program_page_lem spm addr (words (packet_for m 32768 128 addr buf)) b.flash k aligned
          (omega arith),
      packet_data m small addr k buf aligned h,
    )

    -- A block that is sent: the first one, or one with a byte of the image.
    abbrev is_sent : ℕ → Bool
    is_sent addr = not (skipped m 32768 128 addr)

    send_blocks_skip :
        (ok : ℕ → Bool) (fuel addr : ℕ) (buf : Packet)
        → addr < 32768
        → skipped m 32768 128 addr ≡ true
        → send_blocks m 32768 128 ok (suc fuel) addr buf
          ≡ send_blocks m 32768 128 ok fuel (addr + 128) buf
    unfolding send_blocks
    send_blocks_skip ok fuel addr buf h skip = ground arith

    send_blocks_send :
        (ok : ℕ → Bool) (fuel addr : ℕ) (buf : Packet)
        → addr < 32768
        → skipped m 32768 128 addr ≡ false
        → ok addr ≡ true
        → let packet = packet_for m 32768 128 addr buf in
          let rest = send_blocks m 32768 128 ok fuel (addr + 128) packet in
          send_blocks m 32768 128 ok (suc fuel) addr buf
          ≡ record rest { packets = packet ∷ rest.packets }
    unfolding send_blocks
    send_blocks_send ok fuel addr buf h send done = ground arith

    -- What the blocks from `addr` on make of the byte at `k`.
    abbrev updated : ℕ → ℕ → ℕ → ℕ
    updated addr k before =
        if (leb addr k && ltb k 32768) && is_sent (k / 128 * 128) then wanted m k else before

    updated_skip :
        (addr k before : ℕ)
        → addr % 128 ≡ 0
        → is_sent addr ≡ false
        → updated (addr + 128) k before ≡ updated addr k before
    updated_skip addr k before aligned skip = elim (ℕ_discrete (k / 128 * 128) addr) [
      | yes here ↦ rw here (ground arith)
      | no other ↦ ground arith
    ]

    updated_send :
        (addr k before : ℕ)
        → addr % 128 ≡ 0
        → addr < 32768
        → is_sent addr ≡ true
        → updated (addr + 128) k (if k / 128 == (addr / 128) then wanted m k else before)
          ≡ updated addr k before
    updated_send addr k before aligned h send = elim (ℕ_discrete (k / 128 * 128) addr) [
      | yes here ↦ rw here (ground arith)
      | no other ↦ ground arith
    ]

    deliver_from :
        (ok : ℕ → Bool) (left fuel addr : ℕ) (buf : Packet) (b : Boot spm) (k : ℕ)
        → ((a : ℕ) → ok a ≡ true)
        → left < fuel
        → addr + 128 * left ≡ 32768
        → addr % 128 ≡ 0
        → let sent = send_blocks m 32768 128 ok fuel addr buf in
          let b' = receive_all sent.packets b in
          (sent.completed ≡ true)
          × (byte b'.flash k ≡ updated addr k (byte b.flash k))
          × (b'.run_bootloader ≡ b.run_bootloader)
    unfolding receive_all
    deliver_from ok left zero addr buf b k all lt e aligned = absurd (omega arith)
    deliver_from ok zero (suc fuel) addr buf b k all lt e aligned =
        unfold send_blocks in ground arith
    deliver_from ok (suc left) (suc fuel) addr buf b k all lt e aligned =
        elim (Bool-cases (skipped m 32768 128 addr)) [
          | inl skip ↦
              let rest =
                deliver_from ok left fuel (addr + 128) buf b k all (omega arith) (omega arith)
                  (omega arith) in
              rw (send_blocks_skip ok fuel addr buf (omega arith) skip)
                (rest.0, rest.1 ∙ updated_skip addr k (byte b.flash k) aligned (rw skip), rest.2)
          | inr send ↦
              let packet = packet_for m 32768 128 addr buf in
              let one = receive_block addr buf b k aligned (omega arith) in
              let rest =
                deliver_from ok left fuel (addr + 128) packet (receive packet b) k all (omega arith)
                  (omega arith) (omega arith) in
              rw (send_blocks_send ok fuel addr buf (omega arith) send (all addr), receive_all)
                (
                  rest.0,
                  rest.1
                      ∙ ap (updated (addr + 128) k) one.0
                      ∙ updated_send addr k (byte b.flash k) aligned (omega arith) (rw send),
                  rest.2 ∙ one.1,
                )
        ]

    updated-delivered : (k before : ℕ) → updated 0 k before ≡ delivered m k before
    unfolding skipped
    updated-delivered k before = elim (dec_lt k 32768) [
      | yes low ↦
          let bytes = range-byte m (k / 128 * 128) (omega arith) in
          let last : k / 128 * 128 + 128 - 1 ≡ k / 128 * 128 + 127 = omega arith in
          rw (last, bytes)
            (same_choice k (k / 128 * 128) (any_byte m 128 (k / 128 * 128)) (wanted m k) before)
      | no high ↦ ground arith
    ]

    -- For the ATmega32U4 and an image of bytes, when every packet is written, the program gets to
    -- the end on 257 steps of fuel, and the device that handled its packets holds the image in the
    -- first block and in each block with a byte of the image, with 255 where the image has none,
    -- and every other byte of the flash memory as before. The packets leave the bootloader as it
    -- was, running or not; the packet that restarts it, sent next, makes it stop and does not
    -- change the flash memory.
    pub delivery :
        (ok : ℕ → Bool) (buf : Packet) (b : Boot spm) (k : ℕ)
        → ((a : ℕ) → ok a ≡ true)
        → let sent = send_blocks m 32768 128 ok 257 0 buf in
          let b' = receive_all sent.packets b in
          (sent.completed ≡ true)
          × (byte b'.flash k ≡ delivered m k (byte b.flash k))
          × (b'.run_bootloader ≡ b.run_bootloader)
          × (receive reboot_packet b' ≡ record b' { run_bootloader = false })
    unfolding receive control_request reboot_packet
    delivery ok buf b k all =
        let run = deliver_from ok 256 257 0 buf b k all (omega arith) refl refl in
        (run.0, run.1 ∙ updated-delivered k (byte b.flash k), run.2, refl)
