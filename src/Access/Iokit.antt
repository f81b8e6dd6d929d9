-- ===== src/Access/Iokit.antt =====
-- Bootloader/HostLoaderApp/hid_bootloader_cli.c, USE_APPLE_IOKIT: the list of the devices, which
-- lies in allocated memory and is changed by callbacks, and the functions that use it. A reference
-- to a device is a number, and 0 is NULL.
pub mod Chain
pub mod Behind
pub mod Detach
pub mod Attach
pub mod Callbacks
pub mod Devices
pub mod Opening
pub mod Manager
use sphere_ware.Base.{
  ℕ, zero, suc, ◌+◌, ◌≡◌, Bool, true, false, not, ◌&&◌, ◌==◌, if◌then◌else◌, List, [], ◌∷◌, ◌++◌,
  Option, none, some, ◌>>=◌,
}

-- struct usb_list_struct
pub record Node : Type 0 where
  pub ref : ℕ
  pub pid : ℕ
  pub vid : ℕ
  pub next : ℕ

-- The allocated nodes, and `usb_list`.
pub record Memory : Type 0 where
  pub node : ℕ → Option Node
  pub usb_list : ℕ

abbrev pub put : (ℕ → Option Node) → ℕ → Option Node → ℕ → Option Node
put f p n q = if p == q then n else f q

-- A read, a write and `free`: `none` is an access to memory that is not allocated.
abbrev pub load : ℕ → Memory → Option Node
load p m = if p == 0 then none else m.node p

abbrev pub set_next : ℕ → ℕ → Memory → Option Memory
set_next p q m =
    load p m >>= λ n. some (record m { node = put m.node p (some (record n { next = q })) })

abbrev pub free : ℕ → Memory → Option Memory
free p m = load p m >>= λ n. some (record m { node = put m.node p none })

-- `for (p = usb_list; p->next; p = p->next) ; p->next = n;` on fuel.
unfoldable pub link_last : ℕ → ℕ → ℕ → Memory → Option Memory
link_last zero p n m = none
link_last (suc k) p n m = load p m >>= λ at.
    let rest = link_last k at.next n m in if at.next == 0 then set_next p n m else rest

-- A device that is attached: its vendor and its product, `none` where a property is missing, is no
-- number or cannot be read.
pub record Announced : Type 0 where
  pub ref : ℕ
  pub vendor : Option ℕ
  pub product : Option ℕ

-- attach_callback; `fresh` is what `malloc` returns.
unfoldable pub attach_node : ℕ → ℕ → ℕ → ℕ → ℕ → Memory → Option Memory
attach_node fuel fresh ref vid pid m =
    if fresh == 0
    then some m
    else let m1 = record m {
      node = put m.node fresh (some (record { ref = ref; pid = pid; vid = vid; next = 0 }));
    } in
      if m1.usb_list == 0
      then some (record m1 { usb_list = fresh })
      else link_last fuel m1.usb_list fresh m1

unfoldable pub attach_callback : ℕ → ℕ → Announced → Memory → Option Memory
attach_callback fuel fresh d m = if d.ref == 0 then some m else elim d.vendor [
  | none ↦ some m
  | some vid ↦ elim d.product [ none ↦ some m | some pid ↦ attach_node fuel fresh d.ref vid pid m ]
]

-- `if (prev) prev->next = p->next; else usb_list = p->next;`
abbrev pub unlink : ℕ → ℕ → Memory → Option Memory
unlink prev q m = if prev == 0 then some (record m { usb_list = q }) else set_next prev q m

-- The part for a node that is the device: `p->next` after it, and the memory.
unfoldable pub take_out : ℕ → ℕ → ℕ → Memory → Option (ℕ × Memory)
take_out prev p q m =
    unlink prev q m >>= λ m1. load p m1 >>= λ n. free p m1 >>= λ m2. some (n.next, m2)

-- The loop of detach_callback, on fuel.
unfoldable pub detach_loop : ℕ → ℕ → ℕ → ℕ → Memory → Option Memory
detach_loop zero dev p prev m = none
detach_loop (suc k) dev p prev m =
    if p == 0
    then some m
    else (load p m >>= λ n.
        if n.ref == dev
        then (take_out prev p n.next m >>= λ after. detach_loop k dev after.0 prev after.1)
        else detach_loop k dev n.next p m)

-- detach_callback
unfoldable pub detach_callback : ℕ → ℕ → Memory → Option Memory
detach_callback fuel dev m = detach_loop fuel dev m.usb_list 0 m
