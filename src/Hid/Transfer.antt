-- ===== src/Hid/Transfer.antt =====
-- SphereWare/GenericHID.c: the IN half of `GenericHID_Task`, which sends the report of 127 bytes
-- in two packets of 64.
use sphere_ware.Base.{
  ℕ, zero, suc, ◌+◌, ◌≡◌, ◌∙◌, sym, true, false, ltb, leb, ◌&&◌, if◌then◌else◌, arith, refl, ap,
  ap₂, List, [], ◌∷◌, ◌++◌, map, Option, none, some, length, get_elem?, get_elem?_of_le,
}
use sphere_ware.Hid.Buffer.{Hid, byte_at, store, zero_bytes}
use sphere_ware.Hid.Pads.{IsWhole, byte_at-store, store-IsWhole, zero_bytes_lem}

-- The `n` bytes from index `i` on. A `none` is a read behind the end of the array.
unfoldable pub read_bytes : ℕ → ℕ → List ℕ → List (Option ℕ)
read_bytes zero i b = []
read_bytes (suc n) i b = get_elem? b i ∷ read_bytes n (i + 1) b

-- What `GenericHID_Task` does once the host is ready for a packet: the packet and the new state.
unfoldable pub send_packet : Hid → List (Option ℕ) × Hid
unfolding read_bytes zero_bytes
send_packet h =
    let packet = read_bytes 64 (if h.flip then 64 else 0) h.buffer in
    if h.flip
    then (let h1 = store 97 0 (store 99 0 (store 98 0 h)) in
        (
          packet,
          record h1 { buffer = zero_bytes 100 19 h1.buffer; midi_messages = 0; flip = false },
        ))
    else (packet, record h { flip = true })

read_bytes-append :
    (n k m i j : ℕ) (b : List ℕ)
    → m ≡ n + k
    → j ≡ i + n
    → read_bytes n i b ++ read_bytes k j b ≡ read_bytes m i b
unfolding read_bytes
read_bytes-append zero k m i j b e e' =
    let p : k ≡ m = omega arith in let q : j ≡ i = omega arith in rw (p, q)
read_bytes-append (suc n) k zero i j b e e' = absurd (omega arith)
read_bytes-append (suc n) k (suc m) i j b e e' =
    ap (◌∷◌ (get_elem? b i)) (read_bytes-append n k m (i + 1) j b (omega arith) (omega arith))

read_bytes-cons : (n i j x : ℕ) (b : List ℕ) → j ≡ suc i → read_bytes n j (x ∷ b) ≡ read_bytes n i b
unfolding read_bytes
read_bytes-cons zero i j x b e = refl
read_bytes-cons (suc n) i zero x b e = absurd (omega arith)
read_bytes-cons (suc n) i (suc j) x b e =
    let p : j ≡ i = omega arith in
    ap₂ ◌∷◌ (rw p) (read_bytes-cons n (i + 1) (suc j + 1) x b (omega arith))

read_bytes_whole : (b : List ℕ) → read_bytes (length b) 0 b ≡ map some b
unfolding read_bytes
read_bytes_whole [] = refl
read_bytes_whole (x ∷ b) =
    ap (◌∷◌ (some x)) (read_bytes-cons (length b) 0 (0 + 1) x b refl ∙ read_bytes_whole b)

read_bytes_one : (i : ℕ) (b : List ℕ) → read_bytes 1 i b ≡ get_elem? b i ∷ []
unfolding read_bytes
read_bytes_one i b = refl

-- With the whole report, the first half due and the host ready twice in a row, `GenericHID_Task`
-- sends the 127 bytes of the report in order, and a 128th that it reads behind the end of the
-- array; then the first half is due again.
pub send_packet_twice :
    (h : Hid)
    → IsWhole h
    → h.flip ≡ false
    → let (first, h1) = send_packet h in
      let (second, h2) = send_packet h1 in
      (first ++ second ≡ map some h.buffer ++ (none ∷ [])) × (h2.flip ≡ false)
unfolding send_packet
send_packet_twice h e low = ground (arith, packets)
  where
    packets :
        read_bytes 64 0 h.buffer ++ read_bytes 64 64 h.buffer ≡ map some h.buffer ++ (none ∷ [])
    packets =
        read_bytes-append 64 64 128 0 64 h.buffer refl refl
        ∙ sym (read_bytes-append 127 1 128 0 127 h.buffer refl refl)
        ∙ ap₂ ◌++◌ (ap (λ (n : ℕ). read_bytes n 0 h.buffer) (sym e) ∙ read_bytes_whole h.buffer) (
            read_bytes_one 127 h.buffer
            ∙ ap (λ o. o ∷ []) (get_elem?_of_le h.buffer 127 (omega arith)))

send_packet_high :
    (h : Hid)
    → h.flip ≡ true
    → (send_packet h).1 ≡ record h {
      buffer = zero_bytes 100 19 (store 97 0 (store 99 0 (store 98 0 h))).buffer;
      midi_messages = 0;
      flip = false;
    }
unfolding send_packet
send_packet_high h high = ground arith

-- With the whole report and the second half due, sending a packet clears the bytes 97 to 118, which
-- are the button, the dials, the number of MIDI messages and the first six of these, and no other
-- byte: a seventh message, in the bytes 119 to 121, stays in the buffer.
pub send_packet_clears :
    (h : Hid) (j : ℕ)
    → IsWhole h
    → h.flip ≡ true
    → byte_at (send_packet h).1 j ≡ (if leb 97 j && ltb j 119 then 0 else byte_at h j)
send_packet_clears h j e high =
    let h1 = store 98 0 h in
    let h2 = store 99 0 h1 in
    let h3 = store 97 0 h2 in
    let e1 = store-IsWhole h 98 0 e in
    let e2 = store-IsWhole h1 99 0 e1 in
    rw (send_packet_high h high) (
      ground (
        arith,
        zero_bytes_lem 19 100 j h3.buffer,
        byte_at-store h 98 0 j e,
        byte_at-store h1 99 0 j e1,
        byte_at-store h2 97 0 j e2,
      ))
