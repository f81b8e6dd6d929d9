-- ===== src/Device/Overrun.antt =====
-- SphereWare/GenericHID.c: for which reports `GenericHID_ProcessReport` stays inside its array.
use sphere_ware.Base.{
  ℕ, zero, suc, ◌+◌, ◌*◌, ◌≤◌, ◌<◌, ◌≡◌, Bool, List, none, some, get_elem?, get_or, length, arith,
  refl, get_elem?-eq-get_or, get_elem?_of_le, ◌≢◌, Option-cases, inl, inr, leb, ◌==◌, ◌&&◌,
}
use sphere_ware.Hid.Buffer.{report_size}
use sphere_ware.Led.Floats.{Floats}
use sphere_ware.Led.Pressure.{is_none}
use sphere_ware.Device.State.{Device}
use sphere_ware.Device.Report.{
  process_report, process_messages, process_message, midi_message, setting_message, colour_message,
  timing_message,
}

module _ (fp : Floats) (configured : Bool) (report : List ℕ) (e : length report ≡ report_size) where
  read : (i : ℕ) → i < report_size → get_elem? report i ≡ some (get_or report i 0)
  read i h = get_elem?-eq-get_or report i 0 (omega arith)

  process_message-ne-none :
      (index : ℕ) (d : Device)
      → index + 3 < report_size
      → process_message fp configured report index d ≢ none
  unfolding process_message midi_message setting_message colour_message timing_message
  process_message-ne-none index d h = ground (
    arith,
    read index (omega arith),
    read (index + 1) (omega arith),
    read (index + 2) (omega arith),
    read (index + 3) (omega arith),
  )

  process_messages-ne-none :
      (left i : ℕ) (d : Device)
      → i + left ≤ 31
      → process_messages fp configured report left i d ≢ none
  unfolding process_messages
  process_messages-ne-none zero i d h = cc
  process_messages-ne-none (suc left) i d h =
      elim (Option-cases (process_message fp configured report (i * 4 + 2) d)) [
        | inl bad ↦ absurd (process_message-ne-none (i * 4 + 2) d (omega arith) bad)
        | inr (d', ok) ↦ rw ok (process_messages-ne-none left (i + 1) d' (omega arith))
      ]

  process_report-ne-none :
      (d : Device) → get_or report 1 0 ≤ 31 → process_report fp configured report d ≢ none
  unfolding process_report
  process_report-ne-none d h = ground (
    arith,
    read 0 (omega arith),
    read 1 (omega arith),
    process_messages-ne-none (get_or report 1 0) 0 d (omega arith),
  )

  -- A report of 127 bytes that announces at most 31 messages is processed with no read outside of
  -- its array, whatever the state is.
  pub process_report-some :
      (d : Device)
      → get_or report 1 0 ≤ 31
      → (d' : Device) × (process_report fp configured report d ≡ some d')
  process_report-some d h = elim (Option-cases (process_report fp configured report d)) [
    | inl bad ↦ absurd (process_report-ne-none d h bad)
    | inr found ↦ found
  ]

  process_messages-overrun :
      (n left i : ℕ) (d : Device)
      → i + n ≡ 32
      → 33 ≤ i + left
      → process_messages fp configured report left i d ≡ none
  unfolding process_messages process_message
  process_messages-overrun n zero i d h more = absurd (omega arith)
  process_messages-overrun zero (suc left) i d h more =
      rw (get_elem?_of_le report (i * 4 + 2) (omega arith)) refl
  process_messages-overrun (suc n) (suc left) i d h more =
      elim (Option-cases (process_message fp configured report (i * 4 + 2) d)) [
        | inl bad ↦ rw bad refl
        | inr (d', ok) ↦
            rw ok (process_messages-overrun n left (i + 1) d' (omega arith) (omega arith))
      ]

  -- A report of 127 bytes with command 1 that announces 33 messages or more, which the count byte
  -- allows, makes `GenericHID_ProcessReport` read behind the end of its array.
  pub process_report-overrun :
      (d : Device)
      → get_or report 0 0 ≡ 1
      → 33 ≤ get_or report 1 0
      → process_report fp configured report d ≡ none
  unfolding process_report
  process_report-overrun d command h = ground (
    arith,
    read 0 (omega arith),
    read 1 (omega arith),
    process_messages-overrun 32 (get_or report 1 0) 0 d (omega arith) (omega arith),
  )

  -- A report of 127 bytes that does not announce exactly 32 messages is processed with no read
  -- outside of its array, whatever the state is, unless it has command 1 and announces 33 messages
  -- or more, which the count byte allows: then such a read is made.
  pub process_report_lem :
      (d : Device)
      → get_or report 1 0 ≢ 32
      → is_none (process_report fp configured report d)
        ≡ (get_or report 0 0 == 1) && leb 33 (get_or report 1 0)
  unfolding process_report
  process_report_lem d h = ground (
    arith,
    read 0 (omega arith),
    read 1 (omega arith),
    process_messages-ne-none (get_or report 1 0) 0 d,
    process_messages-overrun 32 (get_or report 1 0) 0 d (omega arith),
  )
