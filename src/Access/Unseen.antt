-- ===== src/Access/Unseen.antt =====
-- Bootloader/Descriptors.c and Bootloader/HostLoaderApp/hid_bootloader_cli.c: the host program and
-- the bootloader that stands beside it.
use sphere_ware.Base.{ℕ, ◌≡◌, false, List, [], ◌∷◌, Option, none, some, refl, arith, ◌∙◌, ◌==◌}
use sphere_ware.Access.{Found, absent, Host, teensy, lufa}
use sphere_ware.Access.Session.{Variant, use_libusb, use_win32, use_uhid, access}
use sphere_ware.Access.Libusb.{UsbDevice}
use sphere_ware.Access.Win32.{Interface}
use sphere_ware.Access.Uhid.{Entry}
use sphere_ware.Access.Choice.{
  first, concat, first_of, libusb_device, win32_interface, uhid_entry, choice, handle_after,
}
use sphere_ware.Access.First.{teensy_open-chosen}

-- The vendor and the product in the device descriptor of the bootloader.
abbrev pub bootloader : ℕ × ℕ
bootloader = (0x1d50, 0x6041)

abbrev pub All : {A : Type 0} → (A → Type 0) → List A → Type 0
All P [] = Unit
All P (x ∷ xs) = P x × All P xs

abbrev pub AllOf : {A : Type 0} → (A → Type 0) → Option (List A) → Type 0
AllOf P none = Unit
AllOf P (some xs) = All P xs

-- Each device of the enumeration is such a bootloader.
unfoldable pub OnlyBootloaders : (v : Variant) → (access v).Answers → Type 0
OnlyBootloaders (use_libusb has_get_driver) busses =
    All (λ (d : UsbDevice). (d.vendor ≡ bootloader.0) × (d.product ≡ bootloader.1)) (concat busses)
OnlyBootloaders use_win32 interfaces =
    AllOf (λ (i : Interface). i.attributes ≡ some bootloader) interfaces
OnlyBootloaders use_uhid entries = AllOf (λ (e : Entry). e.info ≡ some bootloader) entries

first-absent :
    {A : Type 0} (P : A → Type 0) (f : A → Found)
    → ((x : A) → P x → f x ≡ absent)
    → (xs : List A) → All P xs
    → first f xs ≡ absent
first-absent P f each [] all = refl
first-absent P f each (x ∷ xs) (p, all) = rw (each x p) (first-absent P f each xs all)

first_of-absent :
    {A : Type 0} (P : A → Type 0) (f : A → Found)
    → ((x : A) → P x → f x ≡ absent)
    → (o : Option (List A)) → AllOf P o
    → first_of f o ≡ absent
first_of-absent P f each none all = refl
first_of-absent P f each (some xs) all = first-absent P f each xs all

choice-absent :
    (v : Variant) (ids : ℕ × ℕ) (x : (access v).Answers)
    → (ids.0 == 0x1d50) ≡ false
    → OnlyBootloaders v x
    → choice v ids x ≡ absent
unfolding choice OnlyBootloaders
choice-absent (use_libusb has_get_driver) ids x other all =
    first-absent _ (libusb_device has_get_driver ids) (λ d p. ground (arith, other, p)) (concat x)
      all
choice-absent use_win32 ids x other all =
    first_of-absent _ (win32_interface ids) (λ i p. ground (arith, other, p)) x all
choice-absent use_uhid ids x other all =
    first_of-absent _ (uhid_entry ids) (λ e p. ground (arith, other, p)) x all

-- With each of the three variants: where the devices that are found are bootloaders as the
-- repository builds them, by the vendor and the product of their device descriptors, `teensy_open`
-- leaves no handle, whether they can be opened or not.
pub teensy_open-unseen :
    (v : Variant) (x y : (access v).Answers) (s : Host)
    → OnlyBootloaders v x
    → OnlyBootloaders v y
    → handle_after ((access v).teensy_open (x, y) s) ≡ some none
teensy_open-unseen v x y s all later =
    teensy_open-chosen v x y s
    ∙ rw (choice-absent v teensy x refl all, choice-absent v lufa y refl later) refl
