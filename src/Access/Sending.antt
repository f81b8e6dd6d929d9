-- ===== src/Access/Sending.antt =====
-- Bootloader/HostLoaderApp/hid_bootloader_cli.c: what a variant has written when `main` is through.
use sphere_ware.Base.{
  ℕ, zero, suc, ◌+◌, ◌≡◌, Bool, true, false, ◌==◌, ltb, if◌then◌else◌, List, [], ◌∷◌, ◌++◌, Option,
  none, some, refl, sym, arith, ◌∙◌, ap, length, Bool-cases, inl, inr,
}
use sphere_ware.Update.Image.{Image}
use sphere_ware.Update.Loader.{Packet, Sent, packet_for, skipped, send_blocks, reboot_packet}
use sphere_ware.Access.{Host, Call, wrote, ledger, Access, kept_event, IsBalanced, closed}
use sphere_ware.Access.Ledger.{IsAccess}
use sphere_ware.Access.Libusb
use sphere_ware.Access.Libusb.{libusb}
use sphere_ware.Access.Uhid
use sphere_ware.Access.Uhid.{uhid}
use mathlib.Core.List.{append-nil, append_assoc}
use sphere_ware.Access.Transfer.{
  bytes_from, bytes_of, limit_of, restart, write_blocks, transfer, history, Carries,
}

closed-history :
    (close : ℕ → List Call → List Call)
    → ((h : ℕ) (calls : List Call) → history (close h calls) ≡ history calls)
    → (o : Option ℕ) (s : Host) → history (closed close o s).calls ≡ history s.calls
closed-history close quiet none s = refl
closed-history close quiet (some h) s = quiet h s.calls

length-bytes_from : (n i : ℕ) (p : Packet) → length (bytes_from n i p) ≡ n
length-bytes_from zero i p = refl
length-bytes_from (suc n) i p = omega (arith, length-bytes_from n (suc i) p)

module _ {a : Access} (c : Carries a) (m : Image) (code_size block_size h : ℕ)
    (answers : ℕ → a.Written) where
  -- What `main` is told of the block at `addr`.
  abbrev pub ok : ℕ → Bool
  ok addr = c.accepted (answers addr) (block_size + 2)

  -- The calls for these packets, the last first.
  abbrev pub on_wire : Bool → List Packet → List Call → List Call
  on_wire first_block [] calls = calls
  on_wire first_block (p ∷ rest) calls =
      on_wire false rest
        (wrote h (bytes_of (block_size + 2) p) (c.limit (limit_of first_block)) ∷ calls)

  -- The host after a write.
  abbrev after : Packet → Bool → Host → Host
  after p first_block s = record s {
    calls = wrote h (bytes_of (block_size + 2) p) (c.limit (limit_of first_block)) ∷ s.calls;
  }

  -- A run that reports and sends what the model of the whole program says.
  abbrev Sends : Sent → Bool → Host → Bool × Host → Type 0
  Sends sent first_block s (r, t) =
      (r ≡ sent.completed)
      × (r ≡ true → t ≡ record s { calls = on_wire first_block sent.packets s.calls })

  wrote-eq :
      (p : Packet) (addr : ℕ) (first_block : Bool) (s : Host)
      → s.handle ≡ some h
      → a.teensy_write (answers addr) (bytes_of (block_size + 2) p) (limit_of first_block) s
        ≡ (ok addr, after p first_block s)
  wrote-eq p addr first_block s e =
      c.carries (answers addr) (bytes_of (block_size + 2) p) (limit_of first_block) h s e
      ∙ rw (length-bytes_from (block_size + 2) 0 p) refl

  write_blocks-Sends :
      (fuel addr : ℕ) (first_block : Bool) (buf : Packet) (s : Host)
      → s.handle ≡ some h
      → Sends
          (send_blocks m code_size block_size ok fuel addr buf)
          first_block
          s
          (write_blocks a m code_size block_size answers fuel addr first_block buf s)
  unfolding write_blocks send_blocks
  write_blocks-Sends zero addr first_block buf s e = (refl, λ r. cc)
  write_blocks-Sends (suc fuel) addr first_block buf s e = elim (Bool-cases (ltb addr code_size)) [
    | inr done ↦ rw done (refl, λ r. refl)
    | inl more ↦ elim (Bool-cases (skipped m code_size block_size addr)) [
      | inl skip ↦ rw (more, skip) (write_blocks-Sends fuel (addr + block_size) first_block buf s e)
      | inr send ↦
          let packet = packet_for m code_size block_size addr buf in
          let written = wrote-eq packet addr first_block s e in
          let rest =
            write_blocks-Sends fuel (addr + block_size) false packet (after packet first_block s)
              e in
          elim (Bool-cases (ok addr)) [
            | inl good ↦ rw (more, send, written, good) rest
            | inr bad ↦ rw (more, send, written, bad) (refl, λ r. cc)
          ]
    ]
  ]

  -- The packets as they are written.
  abbrev pub packets_on_wire : Bool → List Packet → List (ℕ × List ℕ × ℕ)
  packets_on_wire first_block [] = []
  packets_on_wire first_block (p ∷ rest) =
      (h, bytes_of (block_size + 2) p, c.limit (limit_of first_block)) ∷ packets_on_wire false rest

  abbrev pub restart_on_wire : Bool → List (ℕ × List ℕ × ℕ)
  restart_on_wire reboot =
      if reboot then (h, bytes_of (block_size + 2) reboot_packet, c.limit 250) ∷ [] else []

  history-on_wire :
      (first_block : Bool) (ps : List Packet) (calls : List Call)
      → history (on_wire first_block ps calls) ≡ history calls ++ packets_on_wire first_block ps
  history-on_wire first_block [] calls = sym (append-nil (history calls))
  history-on_wire first_block (p ∷ rest) calls =
      history-on_wire false rest _ ∙ append_assoc (history calls) _ _

  ledger-on_wire :
      (first_block : Bool) (ps : List Packet) (calls : List Call)
      → ledger (on_wire first_block ps calls) ≡ ledger calls
  unfolding ledger
  ledger-on_wire first_block [] calls = refl
  ledger-on_wire first_block (p ∷ rest) calls = ledger-on_wire false rest _

  -- The host when all packets are written, and after the packet that restarts the device.
  abbrev all_written : List Packet → Host → Host
  all_written ps s = record s { calls = on_wire true ps s.calls }

  abbrev restarted : Bool → a.Written → Host → Host
  restarted reboot w t =
      if reboot then (a.teensy_write w (bytes_of (block_size + 2) reboot_packet) 250 t).1 else t

  restarted-history :
      (reboot : Bool) (w : a.Written) (t : Host)
      → t.handle ≡ some h
      → (history (restarted reboot w t).calls ≡ history t.calls ++ restart_on_wire reboot)
        × (ledger (restarted reboot w t).calls ≡ ledger t.calls)
        × ((restarted reboot w t).handle ≡ t.handle)
        × ((restarted reboot w t).event ≡ t.event)
  unfolding ledger
  restarted-history false w t e = (sym (append-nil (history t.calls)), refl, refl, refl)
  restarted-history true w t e =
      rw (c.carries w (bytes_of (block_size + 2) reboot_packet) 250 h t e) (refl, refl, refl, refl)

  -- The end of a run.
  pub record Delivered (sent : List Packet) (reboot : Bool) (s t : Host) : Type 0 where
    pub sent_all :
        history t.calls ≡ history s.calls ++ (packets_on_wire true sent ++ restart_on_wire reboot)
    pub nothing_held : ledger t.calls ≡ some (kept_event t.event)
    pub no_device : t.handle ≡ none

  module _ (good : IsAccess a) where
    all_written-Delivered :
        (ps : List Packet) (reboot : Bool) (w : a.Written) (s : Host)
        → s.handle ≡ some h
        → IsBalanced a.owned s
        → Delivered ps reboot s (a.teensy_close (restarted reboot w (all_written ps s)))
    all_written-Delivered ps reboot w s e b =
        let u = all_written ps s in
        let v = restarted reboot w u in
        let (said, same, kept, there) = restarted-history reboot w u e in
        let held : ledger v.calls ≡ ledger s.calls = same ∙ ledger-on_wire true ps s.calls in
        let balanced : IsBalanced a.owned v = rw (kept, there) (held ∙ b) in
        let (left, none_open) = good.closes v balanced in
        record {
          sent_all =
              c.closes_quietly v
              ∙ said
              ∙ ap (λ before. before ++ restart_on_wire reboot) (history-on_wire true ps s.calls)
              ∙ append_assoc (history s.calls) _ _;
          nothing_held = rw none_open at left;
          no_device = none_open;
        }

    restart-Delivered :
        (sent : Sent) (reboot : Bool) (w : a.Written) (s : Host) (x : Bool × Host)
        → s.handle ≡ some h
        → IsBalanced a.owned s
        → Sends sent true s x
        → let (r, t) = restart a m code_size block_size reboot w x in
          (r ≡ sent.completed) × (r ≡ true → Delivered sent.packets reboot s t)
    restart-Delivered sent reboot w s (false, t) e b (same, through) = (same, λ r. cc)
    restart-Delivered sent reboot w s (true, t) e b (same, through) =
        (same, λ r. rw (through refl) (all_written-Delivered sent.packets reboot w s e b))

    -- On a variant that writes the packets to the device as they are, which libusb and uhid do: where
    -- a device is open and nothing else is held, `main` gets to its end exactly if it does in
    -- the model of the whole program, with the answers of this variant. It has then
    -- written to the device the packets of that model, in their order and each with all its bytes,
    -- the first with a time limit of 3 s and the others of 250 ms (if the variant has one), and at
    -- last the packet that restarts the device, if it is to; and it holds nothing any more.
    pub transfer-Delivered :
        (reboot : Bool) (w : a.Written) (fuel : ℕ) (buf : Packet) (s : Host)
        → s.handle ≡ some h
        → IsBalanced a.owned s
        → let sent = send_blocks m code_size block_size ok fuel 0 buf in
          let (r, t) = transfer a m code_size block_size answers reboot w fuel buf s in
          (r ≡ sent.completed) × (r ≡ true → Delivered sent.packets reboot s t)
    unfolding transfer
    transfer-Delivered reboot w fuel buf s e b =
        restart-Delivered (send_blocks m code_size block_size ok fuel 0 buf) reboot w s _ e b
          (write_blocks-Sends fuel 0 true buf s e)

-- libusb and uhid carry the packets as they are. (On Windows a zero comes first.)
pub libusb-Carries : (has_get_driver : Bool) → Carries (libusb has_get_driver)
unfolding Libusb.teensy_write Libusb.teensy_close Libusb.close
libusb-Carries has_get_driver = record {
  accepted = λ accepted n. accepted;
  limit = λ ms. ms;
  carries = λ w packet ms h s e. rw e refl;
  closes_quietly = λ s. closed-history Libusb.close (λ h calls. refl) s.handle s;
}

pub uhid-Carries : Carries uhid
unfolding Uhid.teensy_write Uhid.teensy_close Uhid.close
uhid-Carries = record {
  accepted = λ written n. elim written [ none ↦ false | some r ↦ r == n ];
  limit = λ ms. 0;
  carries = λ w packet ms h s e. rw e refl;
  closes_quietly = λ s. closed-history Uhid.close (λ h calls. refl) s.handle s;
}
