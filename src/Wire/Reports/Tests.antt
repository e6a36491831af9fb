-- ===== src/Wire/Reports/Tests.antt =====
-- Input-report frames read at concrete bytes.
use ff_web_hid.Prelude.{ℕ, List, [], ◌∷◌, ◌++◌, none, some, ◌≡◌, inr, refl, arith, drop}
use ff_web_hid.Wire.Reports.{InputReport, parse_input_reports, frames}
use ff_web_hid.Wire.Reports.RoundTrip.{Split, parse_input_reports-frames, parse_input_reports-Split}

abbrev key_report : InputReport
key_report = record { report_id = 1; body = some (10 ∷ 20 ∷ []) }

abbrev bare_report : InputReport
bare_report = record { report_id = 7; body = none }

-- Two frames after a one-byte batch header, and a cut frame.
abbrev batch : List ℕ
batch = 0x80 ∷ 3 ∷ 0 ∷ 1 ∷ 10 ∷ 20 ∷ 1 ∷ 0 ∷ 7 ∷ 9 ∷ 0 ∷ 5 ∷ []

parse_input_reports-batch : parse_input_reports batch 1 ≡ some (key_report ∷ bare_report ∷ [])
unfolding parse_input_reports
parse_input_reports-batch = refl

parse_input_reports-frames_example :
    parse_input_reports (frames (key_report ∷ bare_report ∷ []) ++ (9 ∷ 0 ∷ 5 ∷ [])) 0
    ≡ some (key_report ∷ bare_report ∷ [])
parse_input_reports-frames_example =
    parse_input_reports-frames (key_report ∷ bare_report ∷ []) (9 ∷ 0 ∷ 5 ∷ [])
      (
        record { fits = omega arith; normal = λ e. cc },
        (record { fits = omega arith; normal = λ e. cc }, tt),
      )
      (omega arith, (omega arith, omega arith)) (inr (omega arith))

parse_input_reports-Split_example :
    (rs : List InputReport) × (parse_input_reports (3 ∷ 0 ∷ 1 ∷ 10 ∷ 20 ∷ 4 ∷ []) 0 ≡ some rs)
    × Split (drop 0 (3 ∷ 0 ∷ 1 ∷ 10 ∷ 20 ∷ 4 ∷ [])) rs
parse_input_reports-Split_example =
    parse_input_reports-Split (3 ∷ 0 ∷ 1 ∷ 10 ∷ 20 ∷ 4 ∷ []) 0
      (omega arith, (omega arith, (omega arith, (omega arith, (omega arith, omega arith)))))
