-- ===== src/Hid/MidiQueue.antt =====
-- SphereWare/GenericHID.c: the MIDI messages that wait in the HID IN report, bytes 100 to 121, as
-- a queue of at most seven.
use sphere_ware.Base.{
  ℕ, zero, suc, ◌+◌, ◌*◌, ◌≤◌, ◌<◌, ◌≡◌, leb, ◌==◌, if◌then◌else◌, u8, arith, List, [], ◌∷◌, ◌++◌,
  Bool-cases, inl, inr, dec_lt, length-set,
}
use sphere_ware.Hid.Buffer.{Hid, Message, byte_at, store, write_midi_data}
use sphere_ware.Hid.Pads.{IsWhole, byte_at-store, store-IsWhole}

message_at : Hid → ℕ → Message
message_at h i = record {
  status = byte_at h (101 + i * 3);
  data1 = byte_at h (102 + i * 3);
  data2 = byte_at h (103 + i * 3);
}

messages_from : Hid → ℕ → ℕ → List Message
messages_from h zero i = []
messages_from h (suc n) i = message_at h i ∷ messages_from h n (suc i)

-- What the host reads: byte 100 says how many messages follow it.
unfoldable pub queued : Hid → List Message
unfolding messages_from message_at
queued h = messages_from h (byte_at h 100) 0

pub record IsQueue (h : Hid) : Type 0 where
  pub whole : IsWhole h
  pub counted : byte_at h 100 ≡ h.midi_messages
  pub few : h.midi_messages ≤ 7

abbrev pub IsMessage : Message → Type 0
IsMessage m = (m.status < 256) × (m.data1 < 256) × (m.data2 < 256)

write_bytes :
    (m : Message) (h : Hid) (j : ℕ)
    → IsQueue h
    → h.midi_messages ≤ 6
    → IsMessage m
    → byte_at (write_midi_data m h) j ≡ (
        if j == 100
        then h.midi_messages + 1
        else if j == (103 + h.midi_messages * 3)
        then m.data2
        else if j == (102 + h.midi_messages * 3)
        then m.data1
        else if j == (101 + h.midi_messages * 3)
        then m.status
        else byte_at h j)
unfolding write_midi_data
write_bytes m h j v few b =
    let n = h.midi_messages in
    let h1 = store (n * 3 + 101) m.status h in
    let h2 = store (n * 3 + 101 + 1) m.data1 h1 in
    let h3 = store (n * 3 + 101 + 2) m.data2 h2 in
    let e1 = store-IsWhole h (n * 3 + 101) m.status v.whole in
    let e2 = store-IsWhole h1 (n * 3 + 101 + 1) m.data1 e1 in
    let e3 = store-IsWhole h2 (n * 3 + 101 + 2) m.data2 e2 in
    ground (
      arith,
      byte_at-store h (n * 3 + 101) m.status j v.whole,
      byte_at-store h1 (n * 3 + 101 + 1) m.data1 j e1,
      byte_at-store h2 (n * 3 + 101 + 2) m.data2 j e2,
      byte_at-store h3 100 (u8 (n + 1)) j e3,
    )

messages_from-write :
    (m : Message) (h : Hid) (n i : ℕ)
    → IsQueue h
    → h.midi_messages ≤ 6
    → IsMessage m
    → i + n ≡ h.midi_messages
    → messages_from (write_midi_data m h) (suc n) i ≡ messages_from h n i ++ (m ∷ [])
unfolding messages_from message_at
messages_from-write m h zero i v few b e = ground (
  arith,
  write_bytes m h (101 + i * 3) v few b,
  write_bytes m h (102 + i * 3) v few b,
  write_bytes m h (103 + i * 3) v few b,
)
messages_from-write m h (suc n) i v few b e = ground (
  arith,
  write_bytes m h (101 + i * 3) v few b,
  write_bytes m h (102 + i * 3) v few b,
  write_bytes m h (103 + i * 3) v few b,
  messages_from-write m h n (suc i) v few b,
)

write_midi_data_full : (m : Message) (h : Hid) → 7 ≤ h.midi_messages → write_midi_data m h ≡ h
unfolding write_midi_data
write_midi_data_full m h full = ground arith

write_midi_data_count :
    (m : Message) (h : Hid)
    → h.midi_messages ≤ 6
    → (write_midi_data m h).midi_messages ≡ h.midi_messages + 1
unfolding write_midi_data
write_midi_data_count m h few = ground arith

write_midi_data-IsWhole : (m : Message) (h : Hid) → IsWhole h → IsWhole (write_midi_data m h)
unfolding write_midi_data
write_midi_data-IsWhole m h e = elim (Bool-cases (leb h.midi_messages 6)) [
  | inl few ↦ rw few (simp length-set e)
  | inr full ↦ rw full e
]

-- If the report holds a queue of at most seven messages with its length in byte 100, it still does
-- after `GenericHID_Write_MidiData` of a message of three bytes.
pub write_midi_data-IsQueue :
    (m : Message) (h : Hid) → IsMessage m → IsQueue h → IsQueue (write_midi_data m h)
write_midi_data-IsQueue m h b v = elim (dec_lt h.midi_messages 7) [
  | yes few ↦ record {
    whole = write_midi_data-IsWhole m h v.whole;
    counted =
        ground
          (arith, write_bytes m h 100 v (omega arith) b, write_midi_data_count m h (omega arith));
    few = omega (arith, write_midi_data_count m h (omega arith));
  }
  | no full ↦ rw (write_midi_data_full m h (omega arith)) v
]

-- `GenericHID_Write_MidiData` puts a message of three bytes behind those that wait, as the host
-- reads them, if the report holds a queue of at most seven; if seven wait already, it drops the
-- message and the host reads the same.
pub write_midi_data_lem :
    (m : Message) (h : Hid)
    → IsMessage m
    → IsQueue h
    → queued (write_midi_data m h)
      ≡ (if leb h.midi_messages 6 then queued h ++ (m ∷ []) else queued h)
unfolding queued
write_midi_data_lem m h b v = elim (dec_lt h.midi_messages 7) [
  | yes few ↦ ground (
    arith,
    write_bytes m h 100 v (omega arith) b,
    messages_from-write m h h.midi_messages 0 v (omega arith) b (omega arith),
  )
  | no full ↦ ground (arith, write_midi_data_full m h (omega arith))
]
