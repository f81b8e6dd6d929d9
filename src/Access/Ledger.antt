-- ===== src/Access/Ledger.antt =====
-- What is held after the parts that the variants share, and what a variant is to promise.
use sphere_ware.Base.{
  ℕ, ◌≡◌, Bool, true, false, List, [], ◌∷◌, ◌++◌, Option, none, some, arith, refl, if◌then◌else◌,
}
use sphere_ware.Access.{
  Resource, device, interface, enumeration, memory, event_object, Call, taken, given_back, same,
  remove, ledger, Found, found, absent, died, or_else, look_through, Host, lufa, open_either,
  stored, with_rebootor, closed, with_handle, Access, owned_by, kept_event, IsBalanced,
}

-- What is held when a look_through ends: `held h` with the handle that it found, or else `left`.
abbrev pub Leaves : (ℕ → List Resource) → List Resource → Found × List Call → Type 0
Leaves held left (found h, calls) = ledger calls ≡ some (held h)
Leaves held left (absent, calls) = ledger calls ≡ some left
Leaves held left (died, calls) = Unit

same_self : (r : Resource) → same r r ≡ true
same_self (device h) = ground arith
same_self (interface h) = ground arith
same_self enumeration = refl
same_self memory = refl
same_self event_object = refl

-- The last that was taken is given back.
pub ledger-given_back :
    (r : Resource) (calls : List Call) (left : List Resource)
    → ledger calls ≡ some (r ∷ left)
    → ledger (given_back r ∷ calls) ≡ some left
unfolding ledger remove
ledger-given_back r calls left l = rw (l, same_self r) refl

pub ledger-taken :
    (r : Resource) (calls : List Call) (left : List Resource)
    → ledger calls ≡ some left
    → ledger (taken r ∷ calls) ≡ some (r ∷ left)
unfolding ledger
ledger-taken r calls left l = rw l refl

-- Both branches of a test.
pub if-Leaves :
    (held : ℕ → List Resource) (left : List Resource) (test : Bool) (x y : Found × List Call)
    → Leaves held left x
    → Leaves held left y
    → Leaves held left (if test then x else y)
if-Leaves held left true x y l m = l
if-Leaves held left false x y l m = m

or_else-Leaves :
    (held : ℕ → List Resource) (left : List Resource) (r : Found × List Call)
    (next : List Call → Found × List Call)
    → Leaves held left r
    → ((calls : List Call) → ledger calls ≡ some left → Leaves held left (next calls))
    → Leaves held left (or_else r next)
or_else-Leaves held left (found h, calls) next l more = l
or_else-Leaves held left (absent, calls) next l more = more calls l
or_else-Leaves held left (died, calls) next l more = l

-- If each round leaves what it finds, so does the loop.
pub look_through-Leaves {ℓ} :
    {A : Type ℓ} (held : ℕ → List Resource) (left : List Resource)
    (try : A → List Call → Found × List Call)
    → ((x : A) (calls : List Call) → ledger calls ≡ some left → Leaves held left (try x calls))
    → (xs : List A) (calls : List Call) → ledger calls ≡ some left
    → Leaves held left (look_through try xs calls)
unfolding look_through
look_through-Leaves held left try each [] calls l = l
look_through-Leaves held left try each (x ∷ xs) calls l =
    or_else-Leaves held left (try x calls) (λ after. look_through try xs after) (each x calls l)
      (λ after m. look_through-Leaves held left try each xs after m)

-- An `open_usb_device` adds what belongs to the handle that it returns, and nothing otherwise.
abbrev pub AddsOwned :
    {A : Type 0} → (ℕ → List Resource) → (ℕ × ℕ → A → List Call → Found × List Call) → Type 0
AddsOwned {A} owned open_usb_device =
    (ids : ℕ × ℕ) (answers : A) (calls : List Call) (left : List Resource)
    → ledger calls ≡ some left
    → Leaves (λ h. owned h ++ left) left (open_usb_device ids answers calls)

-- What a variant promises of the results that it returns.
abbrev pub is_open : Option ℕ → Bool
is_open none = false
is_open (some h) = true

abbrev pub Opens : (ℕ → List Resource) → Option (Bool × Host) → Type 0
Opens owned none = Unit
Opens owned (some (result, t)) = IsBalanced owned t × (result ≡ is_open t.handle)

abbrev pub Reboots : (ℕ → List Resource) → Host → Option (Bool × Host) → Type 0
Reboots owned s none = Unit
Reboots owned s (some (result, t)) = IsBalanced owned t × (t.handle ≡ s.handle)

abbrev pub Writes : (ℕ → List Resource) → Host → Bool × Host → Type 0
Writes owned s (result, t) =
    IsBalanced owned t × (t.handle ≡ s.handle) × (s.handle ≡ none → result ≡ false)

abbrev pub Closes : (ℕ → List Resource) → Host → Type 0
Closes owned t = IsBalanced owned t × (t.handle ≡ none)

-- `teensy_open` leaves nothing of a device that was open before, and succeeds exactly if it has
-- one in the end; `teensy_write` fails with no device; `teensy_close` gives all back
-- but the event, and `hard_reboot` what it took.
pub record IsAccess (a : Access) : Type 0 where
  pub opens :
      (answers : a.Answers × a.Answers) (s : Host)
      → IsBalanced a.owned s
      → Opens a.owned (a.teensy_open answers s)
  pub writes :
      (w : a.Written) (packet : List ℕ) (ms : ℕ) (s : Host)
      → IsBalanced a.owned s
      → Writes a.owned s (a.teensy_write w packet ms s)
  pub closes : (s : Host) → IsBalanced a.owned s → Closes a.owned (a.teensy_close s)
  pub reboots :
      (answers : a.Answers × a.Answers) (w : a.Written) (s : Host)
      → IsBalanced a.owned s
      → Reboots a.owned s (a.hard_reboot answers w s)

module _ (owned : ℕ → List Resource) (close : ℕ → List Call → List Call)
    (rule : (h : ℕ) (calls : List Call) (left : List Resource)
      → ledger calls ≡ some (owned h ++ left)
      → ledger (close h calls) ≡ some left) where
  closed-go :
      (o : Option ℕ) (s : Host)
      → s.handle ≡ o
      → ledger s.calls ≡ some (owned_by owned o ++ kept_event s.event)
      → Closes owned (closed close o s)
  closed-go none s e l = (rw e l, e)
  closed-go (some h) s e l = (rule h s.calls (kept_event s.event) l, refl)

  pub closed-Closes : (s : Host) → IsBalanced owned s → Closes owned (closed close s.handle s)
  closed-Closes s b = closed-go s.handle s refl b

with_handle-go :
    (owned : ℕ → List Resource) (next : ℕ → Host → Bool × Host) (o : Option ℕ) (s : Host)
    → s.handle ≡ o
    → ((h : ℕ) → Reboots owned s (some (next h s)))
    → IsBalanced owned s
    → Writes owned s (with_handle o next s)
with_handle-go owned next none s e keeps b = (b, refl, λ _. refl)
with_handle-go owned next (some h) s e keeps b =
    ((keeps h).0, (keeps h).1, λ closed. absurd (ground (arith, e, closed)))

-- A write that keeps the handle and what is held.
pub with_handle-Writes :
    (owned : ℕ → List Resource) (next : ℕ → Host → Bool × Host) (s : Host)
    → ((h : ℕ) → Reboots owned s (some (next h s)))
    → IsBalanced owned s
    → Writes owned s (with_handle s.handle next s)
with_handle-Writes owned next s keeps b = with_handle-go owned next s.handle s refl keeps b

module _ {A : Type 0} (owned : ℕ → List Resource)
    (open_usb_device : ℕ × ℕ → A → List Call → Found × List Call)
    (adds : AddsOwned owned open_usb_device) where
  pub open_either-Leaves :
      (ids : ℕ × ℕ) (answers : A × A) (calls : List Call) (left : List Resource)
      → ledger calls ≡ some left
      → Leaves (λ h. owned h ++ left) left (open_either open_usb_device ids answers calls)
  unfolding open_either
  open_either-Leaves ids (answers, later) calls left l =
      or_else-Leaves (λ h. owned h ++ left) left (open_usb_device ids answers calls)
        (open_usb_device lufa later) (adds ids answers calls left l)
        (λ after m. adds lufa later after left m)

  stored-Opens :
      (r : Found × List Call) (s : Host)
      → Leaves (λ h. owned h ++ kept_event s.event) (kept_event s.event) r
      → Opens owned (stored r s)
  stored-Opens (found h, calls) s l = (l, refl)
  stored-Opens (absent, calls) s l = (l, refl)
  stored-Opens (died, calls) s l = tt

  pub teensy_open-Opens :
      (ids : ℕ × ℕ) (answers : A × A) (s : Host)
      → Closes owned s
      → Opens owned (stored (open_either open_usb_device ids answers s.calls) s)
  teensy_open-Opens ids answers s (balanced, closed) =
      stored-Opens _ s
        (open_either-Leaves ids answers s.calls (kept_event s.event) (rw closed at balanced))

  with_rebootor-Reboots :
      (r : Found × List Call) (next : ℕ → Host → Bool × Host) (s : Host)
      → ((h : ℕ) (t : Host)
          → ledger t.calls ≡ some (owned h ++ (owned_by owned t.handle ++ kept_event t.event))
          → Reboots owned t (some (next h t)))
      → (let left = owned_by owned s.handle ++ kept_event s.event in
          Leaves (λ h. owned h ++ left) left r)
      → Reboots owned s (with_rebootor r next s)
  with_rebootor-Reboots (found h, calls) next s gives l = gives h (record s { calls = calls }) l
  with_rebootor-Reboots (absent, calls) next s gives l = (l, refl)
  with_rebootor-Reboots (died, calls) next s gives l = tt

  pub hard_reboot-Reboots :
      (ids : ℕ × ℕ) (answers : A × A) (next : ℕ → Host → Bool × Host) (s : Host)
      → ((h : ℕ) (t : Host)
          → ledger t.calls ≡ some (owned h ++ (owned_by owned t.handle ++ kept_event t.event))
          → Reboots owned t (some (next h t)))
      → IsBalanced owned s
      → Reboots owned s (with_rebootor (open_either open_usb_device ids answers s.calls) next s)
  hard_reboot-Reboots ids answers next s gives balanced = with_rebootor-Reboots _ next s gives (
      open_either-Leaves ids answers s.calls (owned_by owned s.handle ++ kept_event s.event)
        balanced)
