-- ===== src/Lib.antt =====
-- SphereWare, the firmware of a spherical MIDI controller with 48 pads, its bootloader and the
-- program that loads a new firmware into it. This library models the logic of the three.
--
-- How the parts work together. The main loop of SphereWare/SphereWare.c visits the pads in the
-- order that `Calibrate` finds. For each it sets the resistor ladder (SphereWare/R2R.c), selects
-- the pad by the multiplexers (SphereWare/MUX.c), reads the converter (SphereWare/ADC.c) and turns
-- the readings into bytes of a report (SphereWare/GenericHID.c). Buttons and dials
-- (SphereWare/ButtonsAndDials.c) write to the same report. After each pass it sets the LED
-- (SphereWare/LED.c). A timer interrupt raises the thresholds when nothing is played, takes MIDI
-- messages from the host (SphereWare/MIDI.c), which it puts into the report, sends the report, and
-- handles the reports from the host, which set the LED and carry MIDI messages to the outside.
--
-- Base       helpers: tests on numbers, arrays as functions, lists, widths of integers, bits.
-- Scan       SphereWare/SphereWare.c, BubbleSort.
-- Hid        SphereWare/GenericHID.c, the report: Buffer has the state and its writers, Transfer
--            the sending half of GenericHID_Task; Pads and MidiQueue say what the host reads,
--            and Halves what it puts together from packets of two reports. InReports is
--            SphereWare/HidInReports.c, which the makefile leaves out.
-- Descriptors  SphereWare/Descriptors.c and Bootloader/Descriptors.c: what the two programs
--            answer to a host that asks for a descriptor.
-- Led        SphereWare/LED.c and the colour part of the main loop: Driver is the serial link, a
--            list of edges on its wires, which Wires decodes; Settings the globals of LED.h;
--            Colour the main loop; in Late and Torn the timer interrupt comes before the colour
--            is sent and between two bits of a packet. Floats is the interface to the arithmetic
--            of the compiler.
-- Device     SphereWare/MIDI.c and GenericHID_ProcessReport: State, Midi, Report; Clock and
--            Overrun have theorems.
-- Ports      SphereWare/MUX.c (Mux), R2R.c (Ladder), ADC.c (Converter) and ButtonsAndDials.c
--            (Buttons, Encoder), on the bytes of the registers; Setup the start with SetupHardware,
--            which Outputs describes; Range and Live have lemmas.
-- Play       SphereWare/SphereWare.c: Press turns the readings of a pad into bytes, Machine is the
--            main loop around it, Standby the timer interrupt, Calibrate the calibration; Levels,
--            Peak, Balance, Visits and Position have theorems.
-- Firmware   SphereWare/SphereWare.c, the main loop and the interrupt together: Board has the
--            steps, Start what comes before the loop; Report, Playing, Calibrated, Controls,
--            Serving and Rounds say what each part keeps, Sound and Progress put this together;
--            Passes relates the steps to the loops, Race is about an interrupted statement, and
--            Single about the pads 40 to 47.
-- Update     Bootloader/BootloaderHID.c (Flash, Handler, Page, Restart) and
--            Bootloader/HostLoaderApp/hid_bootloader_cli.c: Options is `parse_options`, Hex.Line
--            `parse_hex_line`, Hex.File `read_intel_hex`, Image and Loader the blocks, Program
--            `main`. Hex.Print and Hex.Items say what a hex file is, apart from the parser; the
--            other modules below Hex relate the two. Delivery joins the host and the device,
--            FromFile all of it from the hex file on; Sizes and Ends are about its loops. Jump is
--            SphereWare/BootJump.c and the check of its key.
-- Access     the access to USB of Bootloader/HostLoaderApp/hid_bootloader_cli.c, lines 188 to 746:
--            Libusb, Win32 and Uhid fill one interface (Access), for which Ledger has the rules;
--            Session, Choice, First and Unseen are about all three. Waiting is the loop of `main`
--            that waits, for a variant whose answers decide, as Decided shows of libusb; Transfer is
--            the end of `main` on a variant, and Sending says what libusb and uhid have then
--            written. Iokit is the variant of Mac OS X, with its list in allocated memory.
-- Examples   data, and each theorem with hypotheses applied to them.
--
-- Conventions. Functions have the names of the source without the prefix of their file, in lower
-- case. Numbers are natural numbers; an unsigned integer of w bits is one below 2 ^ w, and an
-- `int16_t` or `int8_t` is kept as its bit pattern, with each wrap-around written out. Arrays that
-- are only accessed inside their bounds are functions of the index; the report buffer and the
-- report from the host are lists, and a read behind their end is `none`. What the hardware and the
-- USB library deliver is an argument; what they are given is collected in the state.
--
-- Parameters. Floats: the floating-point operations, with no law assumed. Spm: the self-
-- programming of the microcontroller, with the laws of its data sheet for pages of 128 bytes.
-- Scan: `sscanf` with "%02x" and "%04x"; where a theorem needs it, it is to read digits as it is
-- documented to (ReadsDigits). Codes and Lengths: the codes of the types of descriptors, which are
-- to be different bytes, and the sizes of their structures. What the operating system and the
-- device answer to the host program is a record (World), and in the modules of Access an argument
-- of each call.
--
-- Fuel. The loop over the blocks of an update runs on fuel, one step for each block and one to
-- stop: 257 steps are enough for 32 kB in blocks of 128 bytes, and the program is given enough for
-- every size that it knows; without it the run counts as one that goes on. The loop over the bytes
-- of a hex line has 256 rounds, after which the code itself gives up. The loop that waits for the
-- device follows the list of the answers that are given, and waits still at its end. The loops
-- over the list of IOKit run on fuel, and one more than the devices that are in it or come
-- meanwhile is enough. All other loops are structural.
--
-- Not modelled: the USB library (LUFA) and the contents of the descriptors, which are tables for
-- it; registers that are written once at the start, but for the ports and those of the converter;
-- the course of time; the timer interrupt between single statements of a part of the main loop,
-- but for the statements of Race, Late and Torn (one inside of the first Calibrate is taken to come
-- before it); in the host program the delays and what it prints.
pub mod Access
pub mod Base
pub mod Descriptors
pub mod Device
pub mod Examples
pub mod Firmware
pub mod Hid
pub mod Led
pub mod Play
pub mod Ports
pub mod Scan
pub mod Update
