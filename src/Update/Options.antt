-- ===== src/Update/Options.antt =====
-- Bootloader/HostLoaderApp/hid_bootloader_cli.c: the options and `parse_options`. Arguments are
-- lists of character codes; `none` is the call of `die`.
use Prim.Native.Char.{code}
use Prim.Native.String.{String}
use sphere_ware.Base.{
  ℕ, ◌*◌, Bool, true, false, ◌&&◌, ◌==◌, if◌then◌else◌, List, [], ◌∷◌, Option, none, some, ◌>>=◌,
}

abbrev pub Text : Type 0
Text = List ℕ

-- The characters of a literal.
abbrev pub codes : String → Text
codes String.[] = []
codes (String.◌∷◌ c s) = code c ∷ codes s

-- `strcmp(a, b) == 0`
abbrev pub same : Text → Text → Bool
same [] [] = true
same [] (d ∷ t) = false
same (c ∷ s) [] = false
same (c ∷ s) (d ∷ t) = (c == d) && same s t

-- `strncmp(s, p, n) == 0` for the length n of p, and then `s + n`.
abbrev pub strip : Text → Text → Option Text
strip [] s = some s
strip (d ∷ p) [] = none
strip (d ∷ p) (c ∷ s) = let rest = strip p s in if c == d then rest else none

pub record Options : Type 0 where
  pub wait_for_device_to_appear : Bool
  pub hard_reboot_device : Bool
  pub reboot_after_programming : Bool
  pub verbose : Bool
  pub code_size : ℕ
  pub block_size : ℕ
  pub filename : Option Text

abbrev pub defaults : Options
defaults = record {
  wait_for_device_to_appear = false;
  hard_reboot_device = false;
  reboot_after_programming = true;
  verbose = false;
  code_size = 0;
  block_size = 0;
  filename = none;
}

-- `if (strncmp(...) == 0) ... else ...`
abbrev pub when_prefix {ℓ} : {A : Type ℓ} → Option Text → (Text → A) → A → A
when_prefix none found missing = missing
when_prefix (some rest) found missing = found rest

abbrev pub with_sizes : ℕ → ℕ → Options → Option Options
with_sizes code_size block_size o =
    some (record o { code_size = code_size; block_size = block_size })

-- The chain of tests on the number of the device.
unfoldable pub parse_device : Text → Options → Option Options
parse_device arg o =
    when_prefix (strip (codes "128") arg) (λ _. with_sizes (128 * 1024) 256 o)
      (when_prefix (strip (codes "64") arg) (λ _. with_sizes (64 * 1024) 256 o)
        (when_prefix (strip (codes "32") arg) (λ _. with_sizes (32 * 1024) 128 o)
          (when_prefix (strip (codes "16") arg) (λ _. with_sizes (16 * 1024) 128 o)
            (when_prefix (strip (codes "8") arg) (λ _. with_sizes (8 * 1024) 128 o) none))))

-- What follows "-mmcu=".
unfoldable pub parse_mcu : Text → Options → Option Options
parse_mcu arg o =
    when_prefix (strip (codes "at90usb") arg) (λ rest. parse_device rest o)
      (when_prefix (strip (codes "atmega") arg) (λ rest. parse_device rest o) none)

-- A round of the loop, for an argument that starts with `-` and for any other.
unfoldable pub parse_flag : Text → Options → Option Options
parse_flag arg o =
    if same arg (codes "-w")
    then some (record o { wait_for_device_to_appear = true })
    else if same arg (codes "-r")
    then some (record o { hard_reboot_device = true })
    else if same arg (codes "-n")
    then some (record o { reboot_after_programming = false })
    else if same arg (codes "-v")
    then some (record o { verbose = true })
    else when_prefix (strip (codes "-mmcu=") arg) (λ rest. parse_mcu rest o) (some o)

unfoldable pub parse_argument : Text → Options → Option Options
parse_argument [] o = some (record o { filename = some [] })
parse_argument (c ∷ arg) o =
    if c == b'-' then parse_flag (c ∷ arg) o else some (record o { filename = some (c ∷ arg) })

-- parse_options, for the arguments behind the name of the program.
unfoldable pub parse_options : List Text → Options → Option Options
parse_options [] o = some o
parse_options (arg ∷ args) o = parse_argument arg o >>= parse_options args
