-- ===== src/Update/Sizes.antt =====
-- Bootloader/HostLoaderApp/hid_bootloader_cli.c: the sizes that `parse_options` sets, and the loop
-- of `main` over the blocks for them.
use sphere_ware.Base.{
  ℕ, zero, suc, ◌+◌, ◌*◌, ◌/◌, ◌<◌, ◌≤◌, ◌≡◌, Bool, true, false, ◌||◌, if◌then◌else◌, List, [], ◌∷◌,
  ◌++◌, length, length-append, Option, some, none, arith, refl, Bool-cases, Option-cases, inl, inr,
  ◌==◌,
}
use sphere_ware.Update.Hex.Line.{Hex}
use sphere_ware.Update.Image.{Image}
use sphere_ware.Update.Loader.{Packet, packet_for, send_blocks, reboot_packet}
use sphere_ware.Update.Options.{
  Text, Options, defaults, codes, same, strip, when_prefix, parse_options, parse_argument,
  parse_flag, parse_mcu, parse_device,
}
use sphere_ware.Update.Program.{World, finished, program}

-- The size of the code is a number of blocks, and `buf`, of 260 bytes, has room for a block behind
-- the two bytes of its address; or no device was named.
pub record IsSized (code_size block_size : ℕ) : Type 0 where
  pub whole : code_size ≡ code_size / block_size * block_size
  pub fits : block_size + 2 ≤ 260
  pub small : code_size ≤ 131072

-- The options that a function returns, if it returns any, have such sizes.
data AllSized : Option Options → Type 0 where
  refused : AllSized none
  sized : (o : Options) → IsSized o.code_size o.block_size → AllSized (some o)

sizes_of : (o : Options) → AllSized (some o) → IsSized o.code_size o.block_size
sizes_of o (sized o' v) = v

if-AllSized :
    (b : Bool) {x y : Option Options} → AllSized x → AllSized y → AllSized (if b then x else y)
if-AllSized true x y = x
if-AllSized false x y = y

when_prefix-AllSized :
    (t : Option Text) {f : Text → Option Options} {y : Option Options}
    → ((rest : Text) → AllSized (f rest))
    → AllSized y
    → AllSized (when_prefix t f y)
when_prefix-AllSized none x y = y
when_prefix-AllSized (some rest) x y = x rest

pairs-IsSized :
    IsSized 131072 256
    × IsSized 65536 256
    × IsSized 32768 128
    × IsSized 16384 128
    × IsSized 8192 128
pairs-IsSized = (
  record { whole = refl; fits = omega arith; small = omega arith },
  record { whole = refl; fits = omega arith; small = omega arith },
  record { whole = refl; fits = omega arith; small = omega arith },
  record { whole = refl; fits = omega arith; small = omega arith },
  record { whole = refl; fits = omega arith; small = omega arith },
)

parse_device-AllSized : (arg : Text) (o : Options) → AllSized (parse_device arg o)
unfolding parse_device
parse_device-AllSized arg o =
    let p = pairs-IsSized in
    when_prefix-AllSized (strip (codes "128") arg) (λ _. sized _ p.0)
      (when_prefix-AllSized (strip (codes "64") arg) (λ _. sized _ p.1)
        (when_prefix-AllSized (strip (codes "32") arg) (λ _. sized _ p.2)
          (when_prefix-AllSized (strip (codes "16") arg) (λ _. sized _ p.3)
            (when_prefix-AllSized (strip (codes "8") arg) (λ _. sized _ p.4) refused))))

parse_mcu-AllSized : (arg : Text) (o : Options) → AllSized (parse_mcu arg o)
unfolding parse_mcu
parse_mcu-AllSized arg o =
    when_prefix-AllSized (strip (codes "at90usb") arg) (λ rest. parse_device-AllSized rest o)
      (when_prefix-AllSized (strip (codes "atmega") arg) (λ rest. parse_device-AllSized rest o)
        refused)

parse_argument-AllSized :
    (arg : Text) (o : Options) → IsSized o.code_size o.block_size → AllSized (parse_argument arg o)
unfolding parse_argument parse_flag
parse_argument-AllSized [] o v = sized _ v
parse_argument-AllSized (c ∷ arg) o v =
    let arg1 : Text = c ∷ arg in
    if-AllSized (c == b'-')
      (if-AllSized (same arg1 (codes "-w")) (sized _ v) (
        if-AllSized (same arg1 (codes "-r")) (sized _ v) (
          if-AllSized (same arg1 (codes "-n")) (sized _ v) (
            if-AllSized (same arg1 (codes "-v")) (sized _ v) (
              when_prefix-AllSized (strip (codes "-mmcu=") arg1) (λ rest. parse_mcu-AllSized rest o)
                (sized _ v))))))
      (sized _ v)

parse_options-AllSized :
    (args : List Text) (o : Options)
    → IsSized o.code_size o.block_size
    → AllSized (parse_options args o)
unfolding parse_options
parse_options-AllSized [] o v = sized _ v
parse_options-AllSized (arg ∷ args) o v = elim (Option-cases (parse_argument arg o)) [
  | inl dead ↦ rw dead refused
  | inr (o', taken) ↦
      let v' = sizes_of o' (rw taken at (parse_argument-AllSized arg o v)) in
      rw taken (parse_options-AllSized args o' v')
]

module _ (m : Image) (code_size block_size : ℕ) (ok : ℕ → Bool) (all : (a : ℕ) → ok a ≡ true) where
  send_blocks_ends :
      (left fuel addr : ℕ) (buf : Packet)
      → code_size ≡ addr + left * block_size
      → left < fuel
      → let sent = send_blocks m code_size block_size ok fuel addr buf in
        (sent.completed ≡ true) × (length sent.packets ≤ left)
  unfolding send_blocks
  send_blocks_ends left zero addr buf e h = absurd (omega arith)
  send_blocks_ends zero (suc fuel) addr buf e h = ground arith
  send_blocks_ends (suc left) (suc fuel) addr buf e h =
      let packet = packet_for m code_size block_size addr buf in
      let skip = send_blocks_ends left fuel (addr + block_size) buf (omega arith) (omega arith) in
      let rest =
        send_blocks_ends left fuel (addr + block_size) packet (omega arith) (omega arith) in
      ground (arith, all addr, skip, rest)

-- With enough fuel the loop ends, whether the packets are written or not.
pub send_blocks_stops :
    (m : Image) (code_size block_size : ℕ) (ok : ℕ → Bool) (left fuel addr : ℕ) (buf : Packet)
    → code_size ≡ addr + left * block_size
    → left < fuel
    → let sent = send_blocks m code_size block_size ok fuel addr buf in
      (sent.completed || sent.refused) ≡ true
unfolding send_blocks
send_blocks_stops m code_size block_size ok left zero addr buf e h = absurd (omega arith)
send_blocks_stops m code_size block_size ok zero (suc fuel) addr buf e h = ground arith
send_blocks_stops m code_size block_size ok (suc left) (suc fuel) addr buf e h =
    let packet = packet_for m code_size block_size addr buf in
    ground (
      arith,
      send_blocks_stops m code_size block_size ok left fuel (addr + block_size) buf (omega arith)
          (omega arith),
      send_blocks_stops m code_size block_size ok left fuel (addr + block_size) packet (omega arith)
          (omega arith),
    )

-- The sizes that any arguments leave: the size of the code is a number of blocks and at most 128 kB,
-- and a block with the two bytes of its address fits into `buf`.
pub parse_options-IsSized :
    (args : List Text) (o : Options)
    → parse_options args defaults ≡ some o
    → IsSized o.code_size o.block_size
parse_options-IsSized args o e =
    let none_yet : IsSized 0 0 = record { whole = refl; fits = omega arith; small = omega arith } in
    sizes_of o (rw e at (parse_options-AllSized args defaults none_yet))

-- Whatever the arguments and the image, when all packets are written the program gets to the end of
-- the loop over the blocks and so to its own end, on the fuel of the model, and it has written at
-- most one packet for each block and one to restart the device.
pub program_ends :
    (args : List Text) (o : Options) (w : World) (s : Hex)
    → parse_options args defaults ≡ some o
    → ((a : ℕ) → w.writes a ≡ true)
    → (packets : List Packet) × (program w o s ≡ finished packets)
      × (length packets ≤ o.code_size / o.block_size + 1)
unfolding program
program_ends args o w s e all =
    let v = parse_options-IsSized args o e in
    let blocks : ℕ = o.code_size / o.block_size in
    let run =
      send_blocks_ends s.image o.code_size o.block_size w.writes all blocks (suc blocks) 0 w.buf
        (omega (arith, v.whole)) (omega arith) in
    let sent = send_blocks s.image o.code_size o.block_size w.writes (suc blocks) 0 w.buf in
    elim (Bool-cases o.reboot_after_programming) [
      | inl reboot ↦ (
        sent.packets ++ (reboot_packet ∷ []),
        rw (run.0, reboot) refl,
        omega (arith, length-append sent.packets (reboot_packet ∷ []), run.1),
      )
      | inr stay ↦ (sent.packets, rw (run.0, stay) refl, omega (arith, run.1))
    ]
