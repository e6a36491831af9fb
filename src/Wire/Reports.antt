-- ===== src/Wire/Reports.antt =====
-- parseInputReports of addon/js/utils/wire-format.js: input-report frames
-- [len u16 LE][reportId][payload]*. A Uint8Array is a list of numbers, and the offset is the list
-- that it has not reached.
pub mod RoundTrip
mod Tests
use Prim.Native.Nat.{bit_or}
use mathlib.Core.Option
use ff_web_hid.Prelude.{
  ℕ, zero, suc, ◌+◌, ◌-◌, ◌*◌, ◌^◌, List, [], ◌∷◌, ◌++◌, Option, none, some, ◌||◌, ltb, ◌==◌,
  nat_eq, length, take, drop, if◌then◌else◌,
}
use ff_web_hid.Prelude.Bytes.{byte_at, u16_le}

-- `data: ArrayBuffer|null`
pub record InputReport : Type 0 where
  pub report_id : ℕ
  pub body : Option (List ℕ)

-- The report of a frame of `len` bytes at the front of the list: `null` for an empty payload.
report_at : ℕ → List ℕ → InputReport
report_at len rest = record {
  report_id = byte_at rest 0;
  body = if ltb 0 (len - 1) then some (take (len - 1) (drop 1 rest)) else none;
}

-- The `while` loop, on fuel; `none` means that the fuel ran out.
unfoldable pub parse_loop : ℕ → List ℕ → Option (List InputReport)
unfolding report_at
parse_loop fuel [] = some []
parse_loop fuel (b ∷ []) = some []
parse_loop zero (lo ∷ hi ∷ rest) = none
parse_loop (suc fuel) (lo ∷ hi ∷ rest) =
    let len = bit_or lo (hi * 2 ^ 8) in
    let more =
      Option.map (λ reports. report_at len rest ∷ reports) (parse_loop fuel (drop len rest)) in
    if len == 0 || ltb (length rest) len then some [] else more

-- Each round takes two bytes at least, so `batch.length` rounds are enough.
unfoldable pub parse_input_reports : List ℕ → ℕ → Option (List InputReport)
unfolding parse_loop
parse_input_reports batch offset = parse_loop (length batch) (drop offset batch)

-- The daemon's side of the format: the payload that a report stands for, and its frame.
abbrev pub payload : InputReport → List ℕ
payload r = elim r.body [ none ↦ [] | some p ↦ p ]

unfoldable pub frame : InputReport → List ℕ
frame r = u16_le (length (payload r) + 1) ++ (r.report_id ∷ payload r)

unfoldable pub frames : List InputReport → List ℕ
unfolding frame
frames [] = []
frames (r ∷ rs) = frame r ++ frames rs
