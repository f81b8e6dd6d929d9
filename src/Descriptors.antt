-- ===== src/Descriptors.antt =====
-- SphereWare/Descriptors.c and Bootloader/Descriptors.c: the answers to the host's requests for
-- descriptors. The codes of the types and the sizes of the structures are the USB library's.
use sphere_ware.Base.{
  ℕ, ◌+◌, ◌*◌, ◌/◌, ◌%◌, ◌<◌, ◌≡◌, ◌==◌, if◌then◌else◌, Option, none, some, arith,
}

-- DTYPE_Device, DTYPE_Configuration, DTYPE_String, HID_DTYPE_HID and HID_DTYPE_Report.
pub record Codes : Type 0 where
  pub device_code : ℕ
  pub configuration_code : ℕ
  pub string_code : ℕ
  pub hid_code : ℕ
  pub report_code : ℕ

-- `sizeof` of the structures and `USB_STRING_LEN`.
pub record Lengths : Type 0 where
  pub device_length : ℕ
  pub configuration_length : ℕ
  pub hid_length : ℕ
  pub report_length : ℕ
  pub string_length : ℕ → ℕ

-- What an address points to.
pub data Descriptor : Type 0 where
  device : Descriptor
  configuration : Descriptor
  language_string : Descriptor
  manufacturer_string : Descriptor
  product_string : Descriptor
  hid_part : Descriptor
  report : Descriptor

-- CALLBACK_USB_GetDescriptor of the firmware: the address and the size for `wValue`.
unfoldable pub get_descriptor : Codes → Lengths → ℕ → Option Descriptor × ℕ
get_descriptor c l value =
    let kind = value / 256 % 256 in
    let number = value % 256 in
    if kind == c.device_code
    then (some device, l.device_length)
    else if kind == c.configuration_code
    then (some configuration, l.configuration_length)
    else if kind == c.string_code
    then (if number == 0
        then (some language_string, l.string_length 1)
        else if number == 1
        then (some manufacturer_string, l.string_length 9)
        else if number == 2
        then (some product_string, l.string_length 11)
        else (none, 0))
    else if kind == c.hid_code
    then (some hid_part, l.hid_length)
    else if kind == c.report_code
    then (some report, l.report_length)
    else (none, 0)

-- CALLBACK_USB_GetDescriptor of the bootloader.
unfoldable pub get_boot_descriptor : Codes → Lengths → ℕ → Option Descriptor × ℕ
get_boot_descriptor c l value =
    let kind = value / 256 % 256 in
    if kind == c.device_code
    then (some device, l.device_length)
    else if kind == c.configuration_code
    then (some configuration, l.configuration_length)
    else if kind == c.hid_code
    then (some hid_part, l.hid_length)
    else (some report, l.report_length)

-- The codes are bytes, and no two are the same.
pub record AreCodes (c : Codes) : Type 0 where
  pub bytes :
      (c.device_code < 256)
      × (c.configuration_code < 256)
      × (c.string_code < 256)
      × (c.hid_code < 256)
      × (c.report_code < 256)
  pub device_alone :
      (¬ c.device_code ≡ c.configuration_code)
      × (¬ c.device_code ≡ c.string_code)
      × (¬ c.device_code ≡ c.hid_code)
      × (¬ c.device_code ≡ c.report_code)
  pub configuration_alone :
      (¬ c.configuration_code ≡ c.string_code)
      × (¬ c.configuration_code ≡ c.hid_code)
      × (¬ c.configuration_code ≡ c.report_code)
  pub string_alone : (¬ c.string_code ≡ c.hid_code) × (¬ c.string_code ≡ c.report_code)
  pub hid_alone : ¬ c.hid_code ≡ c.report_code

-- The type and the index by which a host asks for a descriptor.
abbrev kind_of : Codes → Descriptor → ℕ
kind_of c device = c.device_code
kind_of c configuration = c.configuration_code
kind_of c language_string = c.string_code
kind_of c manufacturer_string = c.string_code
kind_of c product_string = c.string_code
kind_of c hid_part = c.hid_code
kind_of c report = c.report_code

abbrev number_of : Descriptor → ℕ → ℕ
number_of language_string index = 0
number_of manufacturer_string index = 1
number_of product_string index = 2
number_of device index = index
number_of configuration index = index
number_of hid_part index = index
number_of report index = index

abbrev length_of : Lengths → Descriptor → ℕ
length_of l device = l.device_length
length_of l configuration = l.configuration_length
length_of l language_string = l.string_length 1
length_of l manufacturer_string = l.string_length 9
length_of l product_string = l.string_length 11
length_of l hid_part = l.hid_length
length_of l report = l.report_length

-- With five different codes that are bytes, a host gets each descriptor of the firmware, with its
-- own size, by its type and its index; for one that is no string any index will do.
pub get_descriptor_lem :
    (c : Codes) (l : Lengths) (d : Descriptor) (index : ℕ)
    → AreCodes c
    → index < 256
    → get_descriptor c l (kind_of c d * 256 + number_of d index) ≡ (some d, length_of l d)
unfolding get_descriptor
get_descriptor_lem c l device index k lt = ground (arith, k)
get_descriptor_lem c l configuration index k lt = ground (arith, k)
get_descriptor_lem c l language_string index k lt = ground (arith, k)
get_descriptor_lem c l manufacturer_string index k lt = ground (arith, k)
get_descriptor_lem c l product_string index k lt = ground (arith, k)
get_descriptor_lem c l hid_part index k lt = ground (arith, k)
get_descriptor_lem c l report index k lt = ground (arith, k)

abbrev size_of : Lengths → Option Descriptor → ℕ
size_of l none = 0
size_of l (some d) = length_of l d

-- Whatever the codes and the request, the firmware and the bootloader return the size of what the
-- address points to, and 0 where there is no address. The bootloader always has an address: what
-- is not known to it is answered with the descriptor of the report.
answers_agree :
    (c : Codes) (l : Lengths) (value : ℕ)
    → let (address, size) = get_descriptor c l value in
      let (boot_address, boot_size) = get_boot_descriptor c l value in
      (size ≡ size_of l address) × (boot_size ≡ size_of l boot_address) × (¬ boot_address ≡ none)
unfolding get_descriptor get_boot_descriptor
answers_agree c l value = ground arith
