-- ===== src/Access/Decided.antt =====
-- Bootloader/HostLoaderApp/hid_bootloader_cli.c: with libusb the answers of the system decide whether
-- `teensy_open` and `hard_reboot` succeed, whatever the program did before.
use sphere_ware.Base.{ℕ, ◌≡◌, Bool, true, false, List, refl, sym}
use mathlib.Core.Path.{subst}
use sphere_ware.Access.{
  Call, Found, found, absent, died, Host, open_either, stored, with_rebootor, teensy, rebootor,
  lufa,
}
use sphere_ware.Access.Libusb
use sphere_ware.Access.Libusb.{libusb}
use sphere_ware.Access.Choice.{or_first, first, concat, libusb_device}
use sphere_ware.Access.First.{or_else-go, libusb-choice}
use sphere_ware.Access.Waiting.{Agrees, Decides}

abbrev is_found : Found → Bool
is_found (found h) = true
is_found absent = false
is_found died = false

-- The result of `hard_reboot`, where `ok` is that of the write to the rebootor.
abbrev is_rebooted : Found → Bool → Bool
is_rebooted (found h) ok = ok
is_rebooted absent ok = false
is_rebooted died ok = false

module _ {A : Type 0} (open_usb_device : ℕ × ℕ → A → List Call → Found × List Call)
    (pick : ℕ × ℕ → A → Found)
    (picks : (ids : ℕ × ℕ) (x : A) (calls : List Call)
      → (open_usb_device ids x calls).0 ≡ pick ids x) where
  open_either-pick :
      (ids : ℕ × ℕ) (x y : A) (calls : List Call)
      → (open_either open_usb_device ids (x, y) calls).0 ≡ or_first (pick ids x) (pick lufa y)
  unfolding open_either
  open_either-pick ids x y calls =
      or_else-go (open_usb_device ids x calls) _ (pick ids x) (pick lufa y) (picks ids x calls)
        (λ after. picks lufa y after)

module _ (has_get_driver : Bool) where
  stored-Agrees :
      (r : Found × List Call) (s : Host)
      → Agrees (libusb has_get_driver) (stored r s) (is_found r.0)
  stored-Agrees (found h, calls) s = refl
  stored-Agrees (absent, calls) s = refl
  stored-Agrees (died, calls) s = tt

  rebooted-Agrees :
      (r : Found × List Call) (next : ℕ → Host → Bool × Host) (ok : Bool) (s : Host)
      → ((h : ℕ) (t : Host) → (next h t).0 ≡ ok)
      → Agrees (libusb has_get_driver) (with_rebootor r next s) (is_rebooted r.0 ok)
  rebooted-Agrees (found h, calls) next ok s same = sym (same h _)
  rebooted-Agrees (absent, calls) next ok s same = refl
  rebooted-Agrees (died, calls) next ok s same = tt

  pub libusb-Decides : Decides (libusb has_get_driver)
  unfolding Libusb.teensy_open Libusb.hard_reboot
  libusb-Decides =
      let look = Libusb.open_usb_device has_get_driver in
      let pick : ℕ × ℕ → List (List Libusb.UsbDevice) → Found =
        λ ids busses. first (libusb_device has_get_driver ids) (concat busses) in
      let picked = open_either-pick look pick (libusb-choice has_get_driver) in
      record {
        opens = λ answers. is_found (or_first (pick teensy answers.0) (pick lufa answers.1));
        reboots = λ answers accepted.
            is_rebooted (or_first (pick rebootor answers.0) (pick lufa answers.1)) accepted;
        opens_so = λ answers s.
            let t = Libusb.teensy_close s in
            subst
              (λ f.
                Agrees (libusb has_get_driver) (stored (open_either look teensy answers t.calls) t)
                  (is_found f))
              (picked teensy answers.0 answers.1 t.calls)
              (stored-Agrees (open_either look teensy answers t.calls) t);
        reboots_so = λ answers accepted s.
            let r = open_either look rebootor answers s.calls in
            subst
              (λ f.
                Agrees (libusb has_get_driver)
                  (Libusb.hard_reboot has_get_driver answers accepted s) (is_rebooted f accepted))
              (picked rebootor answers.0 answers.1 s.calls)
              (rebooted-Agrees r _ accepted s (λ h t. refl));
      }
