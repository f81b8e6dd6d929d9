-- ===== src/Firmware/Report.antt =====
-- SphereWare/GenericHID.c: every function that writes to the report leaves the queue of MIDI
-- messages in it well formed.
use sphere_ware.Base.{
  ℕ, ◌+◌, ◌*◌, ◌<◌, ◌≡◌, ◌≢◌, arith, refl, Bool-cases, inl, inr, length, length-set, zero, suc,
  List, ◌∙◌, set,
}
use sphere_ware.Hid.Buffer.{
  Hid, store, write_pad_data, write_pressure_only, write_button_data, adjust_dial, clear,
  zero_bytes,
}
use sphere_ware.Hid.Pads.{IsWhole, store-IsWhole, byte_at-store, zero_bytes_lem}
use sphere_ware.Hid.Transfer.{send_packet, send_packet_clears}
use sphere_ware.Hid.MidiQueue.{IsQueue}

pub store-IsQueue : (i v : ℕ) (h : Hid) → i < 127 → i ≢ 100 → IsQueue h → IsQueue (store i v h)
store-IsQueue i v h lt other q = record {
  whole = store-IsWhole h i v q.whole;
  counted = ground (arith, byte_at-store h i v 100 q.whole lt, q.counted);
  few = q.few;
}

pub write_pad_data-IsQueue :
    (pad value velocity : ℕ) (h : Hid)
    → pad < 48
    → IsQueue h
    → IsQueue (write_pad_data pad value velocity h)
unfolding write_pad_data
write_pad_data-IsQueue pad value velocity h lt q =
    store-IsQueue (2 + pad * 2) _ _ (omega arith) (λ e. omega arith)
      (store-IsQueue (1 + pad * 2) _ h (omega arith) (λ e. omega arith) q)

pub write_pressure_only-IsQueue :
    (pad value : ℕ) (h : Hid) → pad < 48 → IsQueue h → IsQueue (write_pressure_only pad value h)
unfolding write_pressure_only
write_pressure_only-IsQueue pad value h lt q =
    store-IsQueue (2 + pad * 2) _ _ (omega arith) (λ e. omega arith)
      (store-IsQueue (1 + pad * 2) _ _ (omega arith) (λ e. omega arith)
        (store-IsQueue (1 + pad * 2) _ h (omega arith) (λ e. omega arith) q))

pub write_button_data-IsQueue :
    (buttons : ℕ) (h : Hid) → IsQueue h → IsQueue (write_button_data buttons h)
unfolding write_button_data
write_button_data-IsQueue buttons h q =
    store-IsQueue 97 buttons h (omega arith) (λ e. omega arith) q

pub adjust_dial-IsQueue :
    (dial amount : ℕ) (h : Hid) → dial < 2 → IsQueue h → IsQueue (adjust_dial dial amount h)
unfolding adjust_dial
adjust_dial-IsQueue dial amount h lt q =
    store-IsQueue (98 + dial) _ h (omega arith) (λ e. omega arith) q

length-zero_bytes : (n i : ℕ) (b : List ℕ) → length (zero_bytes i n b) ≡ length b
unfolding zero_bytes
length-zero_bytes zero i b = refl
length-zero_bytes (suc n) i b = length-zero_bytes n (suc i) (set b i 0) ∙ length-set b i 0

pub clear-IsQueue : (h : Hid) → IsQueue h → IsQueue (clear h)
unfolding clear
clear-IsQueue h q = record {
  whole = length-zero_bytes 95 1 h.buffer ∙ q.whole;
  counted = ground (arith, zero_bytes_lem 95 1 100 h.buffer, q.counted);
  few = q.few;
}

send_packet-IsWhole : (h : Hid) → IsWhole h → IsWhole (send_packet h).1
unfolding send_packet
send_packet-IsWhole h w = elim (Bool-cases h.flip) [
  | inl high ↦
      rw high
        (length-zero_bytes 19 100 _ ∙ length-set _ 97 0 ∙ length-set _ 99 0 ∙ length-set _ 98 0 ∙ w)
  | inr low ↦ rw low w
]

-- A packet that is sent takes the queue with it when it is the second half.
pub send_packet-IsQueue : (h : Hid) → IsQueue h → IsQueue (send_packet h).1
unfolding send_packet
send_packet-IsQueue h q = elim (Bool-cases h.flip) [
  | inl high ↦ record {
    whole = send_packet-IsWhole h q.whole;
    counted = ground (arith, high, send_packet_clears h 100 q.whole high);
    few = rw high (omega arith);
  }
  | inr low ↦ rw low (record { whole = q.whole; counted = q.counted; few = q.few })
]
