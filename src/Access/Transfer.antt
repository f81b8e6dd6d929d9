-- ===== src/Access/Transfer.antt =====
-- Bootloader/HostLoaderApp/hid_bootloader_cli.c: the part of `main` that sends the image, on a
-- variant of the access to USB, with the time limits and the handle.
use sphere_ware.Base.{
  ℕ, zero, suc, ◌+◌, ◌≡◌, Bool, true, false, ltb, if◌then◌else◌, List, [], ◌∷◌, ◌++◌, some, length,
}
use sphere_ware.Update.Image.{Image}
use sphere_ware.Update.Loader.{Packet, packet_for, skipped, reboot_packet}
use sphere_ware.Access.{Host, Call, taken, created, wrote, given_back, Access}

-- The first bytes of a buffer.
abbrev pub bytes_from : ℕ → ℕ → Packet → List ℕ
bytes_from zero i p = []
bytes_from (suc n) i p = p i ∷ bytes_from n (suc i) p

abbrev pub bytes_of : ℕ → Packet → List ℕ
bytes_of n p = bytes_from n 0 p

-- `first_block ? 3.0 : 0.25`, in milliseconds.
abbrev pub limit_of : Bool → ℕ
limit_of first_block = if first_block then 3000 else 250

module _ (a : Access) (m : Image) (code_size block_size : ℕ) where
  open a use {Written, teensy_write, teensy_close}

  abbrev pub go_on : Bool × Host → (Host → Bool × Host) → Bool × Host
  go_on (true, t) next = next t
  go_on (false, t) next = (false, t)

  -- The loop over `addr`, on fuel: whether the program gets to its end. `answers addr` is what the
  -- system answers to the write of that block.
  unfoldable pub write_blocks : (ℕ → Written) → ℕ → ℕ → Bool → Packet → Host → Bool × Host
  write_blocks answers zero addr first_block buf s = (false, s)
  write_blocks answers (suc fuel) addr first_block buf s =
      let packet = packet_for m code_size block_size addr buf in
      let skip = write_blocks answers fuel (addr + block_size) first_block buf s in
      let write =
        go_on
          (teensy_write (answers addr) (bytes_of (block_size + 2) packet) (limit_of first_block) s)
          (λ t. write_blocks answers fuel (addr + block_size) false packet t) in
      if ltb addr code_size
      then (if skipped m code_size block_size addr then skip else write)
      else (true, s)

  -- The end of `main`: the packet that restarts the device, and `teensy_close`.
  abbrev pub restart : Bool → Written → Bool × Host → Bool × Host
  restart reboot w (false, s) = (false, s)
  restart reboot w (true, s) =
      let t =
        if reboot then (teensy_write w (bytes_of (block_size + 2) reboot_packet) 250 s).1 else s in
      (true, teensy_close t)

  unfoldable pub transfer : (ℕ → Written) → Bool → Written → ℕ → Packet → Host → Bool × Host
  transfer answers reboot w fuel buf s = restart reboot w (write_blocks answers fuel 0 true buf s)

-- What was written, in order: the handle, the bytes and the time limit.
abbrev pub history : List Call → List (ℕ × List ℕ × ℕ)
history [] = []
history (wrote h p ms ∷ calls) = history calls ++ (h, p, ms) ∷ []
history (taken r ∷ calls) = history calls
history (created ∷ calls) = history calls
history (given_back r ∷ calls) = history calls

-- What a variant does with a packet while the device `h` is open.
pub record Carries (a : Access) : Type 0 where
  pub accepted : a.Written → ℕ → Bool
  pub limit : ℕ → ℕ
  pub carries :
      (w : a.Written) (packet : List ℕ) (ms h : ℕ) (s : Host)
      → s.handle ≡ some h
      → a.teensy_write w packet ms s
        ≡ (accepted w (length packet), record s { calls = wrote h packet (limit ms) ∷ s.calls })
  -- `teensy_close` writes nothing.
  pub closes_quietly : (s : Host) → history (a.teensy_close s).calls ≡ history s.calls
