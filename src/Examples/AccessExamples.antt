-- ===== src/Examples/AccessExamples.antt =====
-- Witnesses for the access of the host program to USB.
use sphere_ware.Base.{ℕ, ◌≡◌, ◌==◌, true, false, List, [], ◌∷◌, none, some, refl, arith}
use sphere_ware.Access.{
  Host, fresh, IsBalanced, ledger, remove, device, interface, enumeration, memory, event_object,
  kept_event, taken, given_back, created, wrote, look_through, open_either,
}
use sphere_ware.Access.Session.{
  use_libusb, use_win32, access, Reach, here, next, opens, writes, sessions-IsBalanced,
}
use sphere_ware.Access.Win32
use sphere_ware.Access.Libusb
use sphere_ware.Access.Libusb.{UsbDevice, libusb}
use sphere_ware.Access.Libusb.Held.{libusb-IsAccess}
use sphere_ware.Access.Choice.{choice, handle_after}
use sphere_ware.Access.First.{teensy_open-chosen}
use sphere_ware.Access.Unseen.{OnlyBootloaders, teensy_open-unseen}
use sphere_ware.Access.Iokit.Manager
use sphere_ware.Access.Iokit.Manager.{
  Init, manager, null, IsUseless, create_manager, managed_opens, managed_opens-failed,
}
use sphere_ware.Update.Image.{Image}
use sphere_ware.Update.Loader.{send_blocks}
use sphere_ware.Access.Transfer.{transfer}
use sphere_ware.Access.Sending.{ok, Delivered, libusb-Carries, transfer-Delivered}
use sphere_ware.Access.Waiting.{Attempt, opened_in, rebooted_in, wait_loop, wait_loop-open_device}
use sphere_ware.Access.Decided.{libusb-Decides}
use sphere_ware.Access.Iokit.{Memory, Announced}
use sphere_ware.Access.Iokit.Chain.{Cells, Holds, nil}
use sphere_ware.Access.Iokit.Callbacks.{
  Event, attached, detached, callbacks, AreUnused, callbacks-Holds,
}
use sphere_ware.Access.Iokit.Devices.{Answer, Iokit, teensy_open}
use sphere_ware.Access.Iokit.Opening.{Leads, teensy_open_lem}
use sphere_ware.Update.Program.{opened, open_device}

-- A device of another make, one whose driver stays, and two that can be used.
abbrev other : UsbDevice
other = record {
  vendor = 0x1111;
  product = 0x0478;
  usb_open = some 1;
  driver = false;
  detaches = false;
  claims = true;
}

abbrev busy : UsbDevice
busy = record other { vendor = 0x16c0; usb_open = some 2; driver = true }

abbrev usable : UsbDevice
usable = record busy { usb_open = some 3; detaches = true }

abbrev last : UsbDevice
last = record usable { usb_open = some 4 }

abbrev busses : List (List UsbDevice)
busses = (other ∷ []) ∷ (busy ∷ usable ∷ []) ∷ (last ∷ []) ∷ []

-- The host with the device 3 open.
abbrev with_device : Host
with_device = record fresh {
  handle = some 3;
  calls = taken (interface 3) ∷ taken (device 3) ∷ given_back (device 2) ∷ taken (device 2) ∷ [];
}

-- On Windows: an interface is found and written to, for which an event is created.
abbrev interface_there : Win32.Interface
interface_there = record {
  allocated = true;
  detail = true;
  create_file = some 5;
  attributes = some (0x16c0, 0x0478);
}

abbrev written_once : Win32.Written
written_once = record {
  creates_event = true;
  write_file = true;
  pending = false;
  waits = Win32.object;
  result = true;
}

abbrev interface_open : Host
interface_open = record fresh {
  handle = some 5;
  calls =
      given_back enumeration
      ∷ given_back memory
      ∷ taken (device 5)
      ∷ taken memory
      ∷ taken enumeration
      ∷ [];
}

abbrev with_event : Host
with_event = record interface_open {
  event = true;
  calls = wrote 5 (0 ∷ 0 ∷ 0 ∷ []) 3000 ∷ created ∷ interface_open.calls;
}

session : Reach (access use_win32) fresh with_event
unfolding look_through open_either Win32.try_attributes Win32.try_interface Win32.end_search
    Win32.open_usb_device Win32.written Win32.write_usb_device Win32.teensy_open Win32.teensy_write
    Win32.teensy_close
session =
    next (next here (opens (some (interface_there ∷ []), none) refl))
      (writes written_once (0 ∷ 0 ∷ []) 3000 refl)

sessions-IsBalanced_example :
    (ledger with_event.calls ≡ some (device 5 ∷ event_object ∷ []))
    × (let t = (access use_win32).teensy_close with_event in
        ledger t.calls ≡ some (kept_event t.event))
sessions-IsBalanced_example = sessions-IsBalanced use_win32 session

-- An open device is given back, the second enumeration is not used.
teensy_open-chosen_example :
    handle_after ((access (use_libusb true)).teensy_open (busses, []) with_device) ≡ some (some 3)
unfolding choice
teensy_open-chosen_example = teensy_open-chosen (use_libusb true) busses [] with_device

-- A bootloader of this repository, which can be opened.
abbrev own : UsbDevice
own = record usable { vendor = 0x1d50; product = 0x6041 }

own_only : OnlyBootloaders (use_libusb true) ((own ∷ []) ∷ [])
unfolding OnlyBootloaders
own_only = ((refl, refl), tt)

teensy_open-unseen_example :
    handle_after ((access (use_libusb true)).teensy_open ((own ∷ []) ∷ [], (own ∷ []) ∷ []) fresh)
    ≡ some none
teensy_open-unseen_example =
    teensy_open-unseen (use_libusb true) ((own ∷ []) ∷ []) ((own ∷ []) ∷ []) fresh own_only own_only

-- The device is there at the second attempt.
abbrev attempts : List (Attempt (libusb true))
attempts =
    record { opening = ([], []); rebooting = ([], []); reboot_written = false }
    ∷ record { opening = (busses, []); rebooting = ([], []); reboot_written = false }
    ∷ []

fresh-IsBalanced : IsBalanced (libusb true).owned fresh
unfolding ledger
fresh-IsBalanced = refl

attempts_run :
    wait_loop (libusb true) attempts false true false fresh ≡ some (opened true, with_device)
unfolding wait_loop look_through open_either Libusb.claim Libusb.try_device Libusb.teensy_open
    Libusb.teensy_close Libusb.open_usb_device
attempts_run = refl

wait_loop-open_device_example :
    (open_device
        (opened_in (libusb true) (libusb-Decides true) attempts)
        (rebooted_in (libusb true) (libusb-Decides true) attempts)
        false
        true
        false
      ≡ opened true)
    × IsBalanced (libusb true).owned with_device
    × (true ≡ true)
wait_loop-open_device_example =
    wait_loop-open_device (libusb true) (libusb-Decides true) (libusb-IsAccess true) attempts false
      true false fresh fresh-IsBalanced attempts_run

-- The list of the devices on Mac OS X.
abbrev empty : Memory
empty = record { node = λ p. none; usb_list = 0 }

empty-Holds : Holds empty []
empty-Holds = record { chain = nil refl; rest_free = λ a out. refl }

abbrev announced : ℕ → ℕ → Announced
announced ref product = record { ref = ref; vendor = some 0x16c0; product = some product }

abbrev events : List Event
events =
    attached 100 (announced 5 0x477)
    ∷ attached 200 (announced 6 0x478)
    ∷ attached 0 (announced 7 0x478)
    ∷ detached 5
    ∷ attached 100 (announced 8 0x478)
    ∷ []

abbrev cells : Cells
cells =
    (200, record { ref = 6; pid = 0x478; vid = 0x16c0 })
    ∷ (100, record { ref = 8; pid = 0x478; vid = 0x16c0 })
    ∷ []

events-AreUnused : AreUnused events []
events-AreUnused = (refl, (refl, (refl, (tt, (refl, tt)))))

callbacks-Holds_example : (t : Memory) × (callbacks 6 events empty ≡ some t) × Holds t cells
callbacks-Holds_example =
    callbacks-Holds 6 events empty [] (omega arith) events-AreUnused empty-Holds

abbrev answer : Answer
answer = record { events = events; opens = λ ref. ref == 8 }

abbrev no_answer : Answer
no_answer = record { events = []; opens = λ ref. false }

abbrev iokit : Iokit
iokit = record { handle = 0; memory = empty; calls = [] }

teensy_open_example : (ws : Cells) × Leads (teensy_open 6 [] (answer, no_answer) iokit) true 8 ws
teensy_open_example =
    teensy_open_lem 6 [] answer no_answer iokit [] (omega arith) tt (events-AreUnused, tt)
      empty-Holds

with_device-IsBalanced : IsBalanced (libusb true).owned with_device
unfolding ledger remove
with_device-IsBalanced = refl

-- An image of one byte in two blocks: the second is skipped.
abbrev image : Image
image = record { firmware_image = λ k. 7; firmware_mask = λ k. k == 0 }

transfer-Delivered_example :
    let c = libusb-Carries true in
    let sent = send_blocks image 256 128 (ok c image 256 128 3 (λ addr. true)) 3 0 (λ j. 0) in
    let (r, t) =
      transfer (libusb true) image 256 128 (λ addr. true) true true 3 (λ j. 0) with_device in
    (r ≡ sent.completed)
    × (r ≡ true → Delivered c image 256 128 3 (λ addr. true) sent.packets true with_device t)
transfer-Delivered_example =
    transfer-Delivered (libusb-Carries true) image 256 128 3 (λ addr. true) (libusb-IsAccess true)
      true true 3 (λ j. 0) with_device refl with_device-IsBalanced

-- The manager cannot be opened at the first call, and could be at the second.
abbrev cannot_open : Init
cannot_open = record { created = manager; dictionary = true; opens = false }

abbrev calls_of_open : List Manager.Attempt
calls_of_open =
    record { ids = (0x16c0, 0x478); init = record cannot_open { opens = true }; answer = answer }
    ∷ []

abbrev first_call : Manager.Attempt
first_call = record { ids = (0x16c0, 0x478); init = cannot_open; answer = answer }

cannot_open-IsUseless : IsUseless (create_manager cannot_open cannot_open.created)
unfolding create_manager
cannot_open-IsUseless = tt

managed_opens-failed_example :
    managed_opens 6 (first_call ∷ calls_of_open) (null, iokit) ≡ some (0 ∷ 0 ∷ [])
managed_opens-failed_example =
    managed_opens-failed 6 first_call calls_of_open iokit (omega arith) cannot_open-IsUseless
      empty-Holds
