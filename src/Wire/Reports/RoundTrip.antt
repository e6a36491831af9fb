-- ===== src/Wire/Reports/RoundTrip.antt =====
-- What parseInputReports reads back, and what it accepts.
use mathlib.Core.Option
use mathlib.Core.List.{append_assoc}
use native.Mathlib.Numerals.{add-one}
use ff_web_hid.Prelude.{
  ℕ, zero, suc, ◌+◌, ◌-◌, ◌*◌, ◌/◌, ◌%◌, ◌≤◌, ◌<◌, List, [], ◌∷◌, ◌++◌, Option, none, some, ◌||◌,
  ltb, ◌==◌, nat_eq, length, take, drop, ◌≡◌, refl, ◌≢◌, ◌⊎◌, inl, inr, All, arith, Bool-cases,
  take-append-drop, All-drop, length-take, sym, lt→ltb, ◌∙◌, ap, length-append, length-drop,
  take_append_exact, drop_append_exact,
}
use ff_web_hid.Prelude.Bytes.{IsByte, join_bytes}
use ff_web_hid.Wire.Reports.{
  InputReport, report_at, parse_loop, parse_input_reports, payload, frame, frames,
}

-- A report as the format can carry it: the length fits a uint16, and an empty payload is `null`.
pub record IsReport (r : InputReport) : Type 0 where
  pub fits : length (payload r) + 1 < 65536
  pub normal : r.body ≢ some []

-- What is left when the loop stops: less than a frame, or a frame of length 0.
abbrev pub IsRemainder : List ℕ → Type 0
IsRemainder [] = Unit
IsRemainder (b ∷ []) = Unit
IsRemainder (lo ∷ hi ∷ rest) = (lo + hi * 256 ≡ 0) ⊎ (length rest < lo + hi * 256)

parse_loop_stops :
    (fuel : ℕ) (rest : List ℕ)
    → All IsByte rest
    → length rest ≤ fuel
    → IsRemainder rest
    → parse_loop fuel rest ≡ some []
unfolding parse_loop
parse_loop_stops fuel [] bs h s = refl
parse_loop_stops fuel (b ∷ []) bs h s = refl
parse_loop_stops zero (lo ∷ hi ∷ rest) bs h s = absurd (omega arith)
parse_loop_stops (suc fuel) (lo ∷ hi ∷ rest) bs h s = ground (arith, join_bytes lo hi bs.0)

-- One round on a complete frame.
parse_loop_round :
    (fuel lo hi len : ℕ) (rest : List ℕ)
    → lo < 256
    → len ≡ lo + hi * 256
    → 0 < len
    → len ≤ length rest
    → parse_loop (suc fuel) (lo ∷ hi ∷ rest)
      ≡ Option.map (λ rs. report_at len rest ∷ rs) (parse_loop fuel (drop len rest))
unfolding parse_loop
parse_loop_round fuel lo hi len rest hlo e pos fit =
    rw (join_bytes lo hi hlo, ← e)
      (elim (Bool-cases (len == 0 || ltb (length rest) len)) [
        | inl stop ↦ absurd (ground arith)
        | inr go ↦ rw go
      ])

-- The report read from a frame is the one that was framed.
report_at-some :
    (len id : ℕ) (p rest : List ℕ)
    → len ≡ length p + 1
    → 0 < length p
    → report_at len (id ∷ (p ++ rest)) ≡ record { report_id = id; body = some p }
unfolding report_at
report_at-some len id p rest e pos =
    let e' : len - 1 ≡ length p = omega arith in
    rw (e', lt→ltb 0 (length p) pos, take_append_exact p rest)

report_at-payload :
    (id : ℕ) (body : Option (List ℕ)) (rest : List ℕ)
    → body ≢ some []
    → (let r : InputReport = record { report_id = id; body = body } in
        report_at (length (payload r) + 1) (id ∷ (payload r ++ rest)) ≡ r)
report_at-payload id none rest h = unfold report_at in refl
report_at-payload id (some []) rest h = absurd (h refl)
report_at-payload id (some (x ∷ xs)) rest h =
    report_at-some (length (x ∷ xs) + 1) id (x ∷ xs) rest refl (omega arith)

parse_loop-frame :
    (fuel : ℕ) (r : InputReport) (rest : List ℕ)
    → IsReport r
    → parse_loop (suc fuel) (frame r ++ rest) ≡ Option.map (λ rs. r ∷ rs) (parse_loop fuel rest)
unfolding frame
parse_loop-frame fuel r rest h =
    parse_loop_round fuel (n % 256) (n / 256 % 256) n (r.report_id ∷ (payload r ++ rest))
      (omega arith) (omega (arith, h.fits)) (omega arith)
      (omega (arith, length-append (payload r) rest))
    ∙ rw (report_at-payload r.report_id r.body rest h.normal)
        (ap (λ t. Option.map (λ rs. r ∷ rs) (parse_loop fuel t)) rest_after)
  where
    n : ℕ
    n = length (payload r) + 1

    rest_after : drop (length (payload r) + 1) (r.report_id ∷ (payload r ++ rest)) ≡ rest
    rest_after = rw add-one (drop_append_exact (payload r) rest)

shorter :
    (r : InputReport) (rs : List InputReport) (tail : List ℕ)
    → length (frames rs ++ tail) < length (frames (r ∷ rs) ++ tail)
unfolding frames frame
shorter r rs tail =
    rw (append_assoc (payload r) (frames rs) tail)
      (omega (arith, length-append (payload r) (frames rs ++ tail)))

parse_loop-frames :
    (fuel : ℕ) (rs : List InputReport) (tail : List ℕ)
    → All IsReport rs
    → All IsByte tail
    → IsRemainder tail
    → length (frames rs ++ tail) ≤ fuel
    → parse_loop fuel (frames rs ++ tail) ≡ some rs
unfolding frames
parse_loop-frames fuel [] tail h bytes stop enough = parse_loop_stops fuel tail bytes enough stop
parse_loop-frames zero (r ∷ rs) tail h bytes stop enough = absurd (omega (arith, shorter r rs tail))
parse_loop-frames (suc fuel) (r ∷ rs) tail (h, hs) bytes stop enough =
    rw (append_assoc (frame r) (frames rs) tail) (
      parse_loop-frame fuel r (frames rs ++ tail) h
      ∙ ap (Option.map (λ rs. r ∷ rs))
          (parse_loop-frames fuel rs tail hs bytes stop (omega (arith, shorter r rs tail))))

-- Frames followed by less than a frame are read back: every report, in order, and nothing else.
pub parse_input_reports-frames :
    (rs : List InputReport) (tail : List ℕ)
    → All IsReport rs
    → All IsByte tail
    → IsRemainder tail
    → parse_input_reports (frames rs ++ tail) 0 ≡ some rs
unfolding parse_input_reports
parse_input_reports-frames rs tail h bytes stop =
    parse_loop-frames (length (frames rs ++ tail)) rs tail h bytes stop (omega arith)

payload-report_at :
    (len id : ℕ) (p : List ℕ) → 0 < len → payload (report_at len (id ∷ p)) ≡ take (len - 1) p
unfolding report_at
payload-report_at len id p pos = elim (Bool-cases (ltb 0 (len - 1))) [
  | inl some_bytes ↦ rw some_bytes
  | inr no_bytes ↦ let e : len - 1 ≡ 0 = ground arith in rw e
]

report_id-report_at : (len id : ℕ) (p : List ℕ) → (report_at len (id ∷ p)).report_id ≡ id
unfolding report_at
report_id-report_at len id p = refl

-- The frame of what one round reads is the bytes that the round takes.
frame-report_at :
    (n lo hi id : ℕ) (p : List ℕ)
    → IsByte lo
    → IsByte hi
    → lo + hi * 256 ≡ suc n
    → n ≤ length p
    → frame (report_at (suc n) (id ∷ p)) ++ drop (suc n) (id ∷ p) ≡ lo ∷ hi ∷ id ∷ p
unfolding frame
frame-report_at n lo hi id p hlo hhi e fit =
    let less : suc n - 1 ≡ n = omega arith in
    let taken : length (take n p) ≡ n = omega (arith, length-take n p) in
    let low : (n + 1) % 256 ≡ lo = omega arith in
    let high : (n + 1) / 256 % 256 ≡ hi = omega arith in
    rw (
      payload-report_at (suc n) id p (omega arith),
      less,
      taken,
      low,
      high,
      report_id-report_at (suc n) id p,
      take-append-drop n p,
    )

-- The bytes are the frames of the reports, and a remainder.
abbrev pub Split : List ℕ → List InputReport → Type 0
Split batch rs = (tail : List ℕ) × (batch ≡ frames rs ++ tail) × IsRemainder tail

Split-round :
    (lo hi : ℕ) (rest : List ℕ) (rs : List InputReport)
    → IsByte lo
    → IsByte hi
    → 0 < lo + hi * 256
    → lo + hi * 256 ≤ length rest
    → Split (drop (lo + hi * 256) rest) rs
    → Split (lo ∷ hi ∷ rest) (report_at (lo + hi * 256) rest ∷ rs)
unfolding frames
Split-round lo hi [] rs hlo hhi pos fit s = absurd (omega arith)
Split-round lo hi (id ∷ p) rs hlo hhi pos fit (tail, e, stop) =
    let n : ℕ = lo + hi * 256 - 1 in
    let len : lo + hi * 256 ≡ suc n = omega arith in
    let whole = frame-report_at n lo hi id p hlo hhi len (omega arith) in
    (
      tail,
      rw len (
          sym whole
          ∙ (rw (← len, e, len)
              (sym (append_assoc (frame (report_at (suc n) (id ∷ p))) (frames rs) tail)))),
      stop,
    )

parse_loop-Split :
    (fuel : ℕ) (batch : List ℕ)
    → All IsByte batch
    → length batch ≤ fuel
    → (rs : List InputReport) × (parse_loop fuel batch ≡ some rs) × Split batch rs
unfolding parse_loop
parse_loop-Split fuel [] bytes h = ([], refl, ([], unfold frames in refl, tt))
parse_loop-Split fuel (b ∷ []) bytes h = ([], refl, (b ∷ [], unfold frames in refl, tt))
parse_loop-Split zero (lo ∷ hi ∷ rest) bytes h = absurd (omega arith)
parse_loop-Split (suc fuel) (lo ∷ hi ∷ rest) (hlo, (hhi, bytes)) h =
    let len : ℕ = lo + hi * 256 in
    let (rs, e, s) =
      parse_loop-Split fuel (drop len rest) (All-drop IsByte len rest bytes)
        (omega (arith, length-drop len rest)) in
    rw (join_bytes lo hi hlo) (elim (Bool-cases (len == 0 || ltb (length rest) len)) [
      | inl stop ↦ ([], rw stop, (lo ∷ hi ∷ rest, unfold frames in refl, ground arith))
      | inr go ↦ (
        report_at len rest ∷ rs,
        rw (go, e),
        Split-round lo hi rest rs hlo hhi (ground arith) (ground arith) s,
      )
    ])

-- On any bytes, from any offset, the loop ends, and the reports returned are exactly those whose
-- frames the bytes from the offset on begin with: what follows the frames is less than a frame, or
-- a frame of length 0.
pub parse_input_reports-Split :
    (batch : List ℕ) (offset : ℕ)
    → All IsByte batch
    → (rs : List InputReport) × (parse_input_reports batch offset ≡ some rs)
      × Split (drop offset batch) rs
unfolding parse_input_reports
parse_input_reports-Split batch offset bytes =
    parse_loop-Split (length batch) (drop offset batch) (All-drop IsByte offset batch bytes)
      (omega (arith, length-drop offset batch))
