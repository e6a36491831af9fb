-- ===== src/Native/Frames.antt =====
-- onPackedData of addon/js/background/nm.js: input reports that the daemon packs into one message,
-- [type][device u32 LE] and then [reportId][len u16 LE][payload]*. The bytes are those of the base64
-- text, which is decoded by code outside the program.
pub mod RoundTrip
use Prim.Native.Nat.{bit_or}
use mathlib.Core.Option
use ff_web_hid.Prelude.{
  ℕ, zero, suc, ◌+◌, ◌-◌, ◌*◌, ◌^◌, List, [], ◌∷◌, ◌++◌, Option, none, some, ◌||◌, not, ltb, ◌==◌,
  nat_eq, length, take, drop, if◌then◌else◌,
}
use ff_web_hid.Prelude.Bytes.{byte_at, get_uint32, u16_le}
use ff_web_hid.Wire.Control.{pkg_input_report}
use ff_web_hid.Ownership.State.{State}
use ff_web_hid.Ownership.Opens.{tabs_for_event}

pub record PackedReport : Type 0 where
  pub report_id : ℕ
  pub body : List ℕ

-- The `while` loop, on fuel; `none` means that the fuel ran out.
unfoldable pub packed_loop : ℕ → List ℕ → Option (List PackedReport)
packed_loop fuel [] = some []
packed_loop fuel (id ∷ []) = some []
packed_loop fuel (id ∷ lo ∷ []) = some []
packed_loop zero (id ∷ lo ∷ hi ∷ rest) = none
packed_loop (suc fuel) (id ∷ lo ∷ hi ∷ rest) =
    let len = bit_or lo (hi * 2 ^ 8) in
    let more =
      Option.map (λ reports. record { report_id = id; body = take len rest } ∷ reports)
        (packed_loop fuel (drop len rest)) in
    if ltb (length rest) len then some [] else more

-- The device, the tabs that its events go to, and the reports in the order of the message.
pub record Delivery : Type 0 where
  pub device_id : ℕ
  pub targets : List ℕ
  pub reports : Option (List PackedReport)

-- `if (!targets) return`
unfoldable pub deliver : List ℕ → Option (List ℕ) → Option Delivery
unfolding packed_loop
deliver bin none = none
deliver bin (some targets) = some (record {
  device_id = get_uint32 bin 1;
  targets = targets;
  reports = packed_loop (length bin) (drop 5 bin);
})

-- What a message delivers; none for one that is dropped.
unfoldable pub on_packed_data : List ℕ → State → Option Delivery
unfolding deliver
on_packed_data bin st =
    if ltb (length bin) 8 || not (byte_at bin 0 == pkg_input_report)
    then none
    else deliver bin (tabs_for_event (get_uint32 bin 1) st)

-- The daemon's side of the format.
unfoldable pub packed_frame : PackedReport → List ℕ
packed_frame r = r.report_id ∷ (u16_le (length r.body) ++ r.body)

unfoldable pub packed_frames : List PackedReport → List ℕ
unfolding packed_frame
packed_frames [] = []
packed_frames (r ∷ rs) = packed_frame r ++ packed_frames rs
