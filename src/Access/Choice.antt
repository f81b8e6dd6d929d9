-- ===== src/Access/Choice.antt =====
-- Bootloader/HostLoaderApp/hid_bootloader_cli.c: which devices each variant can use, apart from the
-- code that looks for them.
use sphere_ware.Base.{
  ℕ, Bool, true, false, not, ◌&&◌, ◌==◌, List, [], ◌∷◌, ◌++◌, Option, none, some,
}
use sphere_ware.Update.Options.{strip}
use sphere_ware.Access.{Found, found, absent, died, Host}
use sphere_ware.Access.Session.{Variant, use_libusb, use_win32, use_uhid, access}
use sphere_ware.Access.Libusb.{UsbDevice}
use sphere_ware.Access.Uhid.{Entry}
use sphere_ware.Access.Win32.{Interface}

-- The first that is not `absent`.
abbrev pub or_first : Found → Found → Found
or_first (found h) y = found h
or_first absent y = y
or_first died y = died

abbrev pub first {ℓ} : {A : Type ℓ} → (A → Found) → List A → Found
first f [] = absent
first f (x ∷ xs) = or_first (f x) (first f xs)

abbrev pub concat {ℓ} : {A : Type ℓ} → List (List A) → List A
concat [] = []
concat (xs ∷ rest) = xs ++ concat rest

abbrev pub has_ids : ℕ × ℕ → ℕ → ℕ → Bool
has_ids (vid, pid) vendor product = (vendor == vid) && (product == pid)

abbrev pub if_found : Bool → Option ℕ → Found
if_found true (some h) = found h
if_found true none = absent
if_found false h = absent

-- A device of libusb is taken if it is the one that is asked for, opens, has no driver that stays,
-- and its interface can be claimed.
abbrev pub libusb_device : Bool → ℕ × ℕ → UsbDevice → Found
libusb_device has_get_driver ids d =
    if_found
      (has_ids ids d.vendor d.product
        && (not (has_get_driver && (d.driver && not d.detaches)) && d.claims))
      d.usb_open

-- On Windows: if there is memory and the details, and it opens and has these attributes.
abbrev pub win32_attributes : ℕ × ℕ → Option (ℕ × ℕ) → Bool
win32_attributes ids none = false
win32_attributes ids (some (vendor, product)) = has_ids ids vendor product

abbrev pub win32_interface : ℕ × ℕ → Interface → Found
win32_interface ids i =
    if_found (i.allocated && (i.detail && win32_attributes ids i.attributes)) i.create_file

-- With uhid: the name begins with "uhid", it opens and is the one that is asked for; where an open
-- entry does not answer, the program ends.
abbrev pub uhid_info : ℕ × ℕ → ℕ → Option (ℕ × ℕ) → Found
uhid_info ids fd none = died
uhid_info ids fd (some (vendor, product)) = if_found (has_ids ids vendor product) (some fd)

abbrev pub uhid_open : ℕ × ℕ → Option (ℕ × ℕ) → Option ℕ → Found
uhid_open ids info none = absent
uhid_open ids info (some fd) = uhid_info ids fd info

abbrev pub uhid_named : Option (List ℕ) → Found → Found
uhid_named none f = absent
uhid_named (some rest) f = f

abbrev pub uhid_entry : ℕ × ℕ → Entry → Found
uhid_entry ids e =
    uhid_named (strip (b'u' ∷ b'h' ∷ b'i' ∷ b'd' ∷ []) e.name) (uhid_open ids e.info e.opens)

abbrev pub first_of {ℓ} : {A : Type ℓ} → (A → Found) → Option (List A) → Found
first_of f none = absent
first_of f (some xs) = first f xs

-- What is to be taken of an enumeration.
unfoldable pub choice : (v : Variant) → ℕ × ℕ → (access v).Answers → Found
choice (use_libusb has_get_driver) ids busses =
    first (libusb_device has_get_driver ids) (concat busses)
choice use_win32 ids interfaces = first_of (win32_interface ids) interfaces
choice use_uhid ids entries = first_of (uhid_entry ids) entries

-- The handle that `teensy_open` leaves; `none` where the program ends.
abbrev pub handle_after : Option (Bool × Host) → Option (Option ℕ)
handle_after none = none
handle_after (some (result, t)) = some t.handle

abbrev pub chosen : Found → Option (Option ℕ)
chosen (found h) = some (some h)
chosen absent = some none
chosen died = none
