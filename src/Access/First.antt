-- ===== src/Access/First.antt =====
-- Bootloader/HostLoaderApp/hid_bootloader_cli.c: which device `teensy_open` takes.
use sphere_ware.Base.{
  ℕ, ◌≡◌, Bool, List, [], ◌∷◌, ◌++◌, Option, none, some, refl, sym, arith, ◌∙◌, ap,
}
use sphere_ware.Access.{
  Call, Found, found, absent, died, or_else, look_through, open_either, stored, Host, teensy, lufa,
  closed,
}
use sphere_ware.Access.Session.{Variant, use_libusb, use_win32, use_uhid, access}
use sphere_ware.Access.Libusb
use sphere_ware.Access.Libusb.{UsbDevice, claim, try_device}
use sphere_ware.Access.Uhid
use sphere_ware.Access.Uhid.{Entry, try_info, try_entry, close_dir}
use sphere_ware.Access.Win32
use sphere_ware.Access.Win32.{Interface, try_attributes, try_interface, end_search}
use sphere_ware.Access.Choice.{
  or_first, first, concat, libusb_device, win32_interface, uhid_entry, first_of, choice,
  handle_after, chosen,
}

pub or_else-go :
    (r : Found × List Call) (next : List Call → Found × List Call) (x y : Found)
    → r.0 ≡ x
    → ((calls : List Call) → (next calls).0 ≡ y)
    → (or_else r next).0 ≡ or_first x y
or_else-go (found h, calls) next x y e more = rw (← e) refl
or_else-go (absent, calls) next x y e more = rw (← e) (more calls)
or_else-go (died, calls) next x y e more = rw (← e) refl

-- A look_through finds what the first round finds that does not go on.
look_through-first {ℓ} :
    {A : Type ℓ} (try : A → List Call → Found × List Call) (f : A → Found)
    → ((x : A) (calls : List Call) → (try x calls).0 ≡ f x)
    → (xs : List A) (calls : List Call) → (look_through try xs calls).0 ≡ first f xs
unfolding look_through
look_through-first try f each [] calls = refl
look_through-first try f each (x ∷ xs) calls =
    or_else-go (try x calls) _ (f x) (first f xs) (each x calls)
      (λ after. look_through-first try f each xs after)

first-append {ℓ} :
    {A : Type ℓ} (f : A → Found) (xs ys : List A)
    → first f (xs ++ ys) ≡ or_first (first f xs) (first f ys)
first-append f [] ys = refl
first-append f (x ∷ xs) ys = ground (arith, first-append f xs ys)

first-concat {ℓ} :
    {A : Type ℓ} (f : A → Found) (xss : List (List A)) → first (first f) xss ≡ first f (concat xss)
first-concat f [] = refl
first-concat f (xs ∷ rest) = rw (first-concat f rest) (sym (first-append f xs (concat rest)))

libusb_lem :
    (has_get_driver : Bool) (ids : ℕ × ℕ) (d : UsbDevice) (calls : List Call)
    → (try_device has_get_driver ids d calls).0 ≡ libusb_device has_get_driver ids d
unfolding try_device claim
libusb_lem has_get_driver ids d calls = ground arith

win32_lem :
    (ids : ℕ × ℕ) (i : Interface) (calls : List Call)
    → (try_interface ids i calls).0 ≡ win32_interface ids i
unfolding try_interface try_attributes
win32_lem ids i calls = ground arith

uhid_lem :
    (ids : ℕ × ℕ) (e : Entry) (calls : List Call) → (try_entry ids e calls).0 ≡ uhid_entry ids e
unfolding try_entry try_info
uhid_lem ids e calls = ground arith

end_search-found : (r : Found × List Call) → (end_search r).0 ≡ r.0
unfolding end_search
end_search-found (found h, calls) = refl
end_search-found (absent, calls) = refl
end_search-found (died, calls) = refl

close_dir-found : (r : Found × List Call) → (close_dir r).0 ≡ r.0
unfolding close_dir
close_dir-found (found h, calls) = refl
close_dir-found (absent, calls) = refl
close_dir-found (died, calls) = refl

pub libusb-choice :
    (has_get_driver : Bool) (ids : ℕ × ℕ) (busses : List (List UsbDevice)) (calls : List Call)
    → (Libusb.open_usb_device has_get_driver ids busses calls).0
      ≡ first (libusb_device has_get_driver ids) (concat busses)
unfolding Libusb.open_usb_device
libusb-choice has_get_driver ids busses calls =
    look_through-first (look_through (try_device has_get_driver ids))
      (first (libusb_device has_get_driver ids))
      (λ devices after.
        look_through-first (try_device has_get_driver ids) (libusb_device has_get_driver ids)
          (libusb_lem has_get_driver ids) devices after)
      busses calls
    ∙ first-concat (libusb_device has_get_driver ids) busses

win32-choice :
    (ids : ℕ × ℕ) (interfaces : Option (List Interface)) (calls : List Call)
    → (Win32.open_usb_device ids interfaces calls).0 ≡ first_of (win32_interface ids) interfaces
unfolding Win32.open_usb_device end_search
win32-choice ids none calls = refl
win32-choice ids (some interfaces) calls =
    end_search-found _
    ∙ look_through-first (try_interface ids) (win32_interface ids) (win32_lem ids) interfaces _

uhid-choice :
    (ids : ℕ × ℕ) (entries : Option (List Entry)) (calls : List Call)
    → (Uhid.open_usb_device ids entries calls).0 ≡ first_of (uhid_entry ids) entries
unfolding Uhid.open_usb_device
uhid-choice ids none calls = refl
uhid-choice ids (some entries) calls =
    close_dir-found _ ∙ look_through-first (try_entry ids) (uhid_entry ids) (uhid_lem ids) entries _

stored-chosen : (r : Found × List Call) (s : Host) → handle_after (stored r s) ≡ chosen r.0
stored-chosen (found h, calls) s = refl
stored-chosen (absent, calls) s = refl
stored-chosen (died, calls) s = refl

open_either-chosen :
    {A : Type 0} (open_usb_device : ℕ × ℕ → A → List Call → Found × List Call)
    (pick : ℕ × ℕ → A → Found)
    → ((ids : ℕ × ℕ) (x : A) (calls : List Call) → (open_usb_device ids x calls).0 ≡ pick ids x)
    → (x y : A) (s : Host)
    → handle_after (stored (open_either open_usb_device teensy (x, y) s.calls) s)
      ≡ chosen (or_first (pick teensy x) (pick lufa y))
unfolding open_either
open_either-chosen open_usb_device pick picks x y s =
    stored-chosen _ s
    ∙ ap chosen (
        or_else-go (open_usb_device teensy x s.calls) _ (pick teensy x) (pick lufa y)
          (picks teensy x s.calls) (λ after. picks lufa y after))

-- With libusb, on Windows and with uhid, whatever was open before, `teensy_open` leaves the handle
-- of the first usable device of the bootloader 16c0:0478 in the order of the enumeration, the buses
-- of libusb one behind the other; if there is none, of the first of 03eb:2067 in a second
-- enumeration; and no handle if there is none either. With uhid, the program ends where an entry
-- that it opens before does not answer.
pub teensy_open-chosen :
    (v : Variant) (x y : (access v).Answers) (s : Host)
    → handle_after ((access v).teensy_open (x, y) s)
      ≡ chosen (or_first (choice v teensy x) (choice v lufa y))
unfolding choice Libusb.teensy_open Libusb.teensy_close Win32.teensy_open Win32.teensy_close
    Uhid.teensy_open Uhid.teensy_close
teensy_open-chosen (use_libusb has_get_driver) x y s =
    open_either-chosen (Libusb.open_usb_device has_get_driver)
      (λ ids busses. first (libusb_device has_get_driver ids) (concat busses))
      (libusb-choice has_get_driver) x y (closed Libusb.close s.handle s)
teensy_open-chosen use_win32 x y s =
    open_either-chosen Win32.open_usb_device (λ ids. first_of (win32_interface ids)) win32-choice x
      y (closed Win32.close s.handle s)
teensy_open-chosen use_uhid x y s =
    open_either-chosen Uhid.open_usb_device (λ ids. first_of (uhid_entry ids)) uhid-choice x y
      (closed Uhid.close s.handle s)
