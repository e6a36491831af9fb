-- ===== src/Native/Frames/RoundTrip.antt =====
-- What onPackedData reads out of a message.
use mathlib.Core.Option
use mathlib.Core.List.{append_assoc}
use ff_web_hid.Prelude.{
  ℕ, zero, suc, ◌+◌, ◌*◌, ◌/◌, ◌%◌, ◌≤◌, ◌<◌, List, [], ◌∷◌, ◌++◌, Option, none, some, ◌||◌, not,
  ltb, ◌==◌, nat_eq, length, take, drop, ◌≡◌, refl, All, arith, inl, inr, Bool-cases,
  take-append-drop, All-drop, length-take, sym, ◌∙◌, ap, length-drop,
}
use ff_web_hid.Prelude.Bytes.{IsByte, join_bytes, get_uint32, byte_at}
use ff_web_hid.Ownership.State.{State}
use ff_web_hid.Ownership.Opens.{tabs_for_event}
use ff_web_hid.Wire.Control.{pkg_input_report}
use ff_web_hid.Native.Frames.{
  PackedReport, packed_loop, deliver, Delivery, on_packed_data, packed_frame, packed_frames,
}

-- Less than a report: less than its header, or less payload than the header announces.
abbrev pub IsCut : List ℕ → Type 0
IsCut [] = Unit
IsCut (id ∷ []) = Unit
IsCut (id ∷ lo ∷ []) = Unit
IsCut (id ∷ lo ∷ hi ∷ rest) = length rest < lo + hi * 256

-- The bytes are the frames of the reports, and less than a report.
abbrev pub PackedSplit : List ℕ → List PackedReport → Type 0
PackedSplit bin rs = (tail : List ℕ) × (bin ≡ packed_frames rs ++ tail) × IsCut tail

packed_round :
    (fuel id lo hi : ℕ) (rest : List ℕ)
    → lo < 256
    → lo + hi * 256 ≤ length rest
    → packed_loop (suc fuel) (id ∷ lo ∷ hi ∷ rest)
      ≡ Option.map
          (λ rs. record { report_id = id; body = take (lo + hi * 256) rest } ∷ rs)
          (packed_loop fuel (drop (lo + hi * 256) rest))
unfolding packed_loop
packed_round fuel id lo hi rest h fit =
    rw (join_bytes lo hi h) (elim (Bool-cases (ltb (length rest) (lo + hi * 256))) [
      | inl stop ↦ absurd (ground arith)
      | inr go ↦ rw go
    ])

frame_of_round :
    (id lo hi : ℕ) (rest : List ℕ)
    → IsByte lo
    → IsByte hi
    → lo + hi * 256 ≤ length rest
    → packed_frame (record { report_id = id; body = take (lo + hi * 256) rest })
        ++ drop (lo + hi * 256) rest
      ≡ id ∷ lo ∷ hi ∷ rest
unfolding packed_frame
frame_of_round id lo hi rest h k fit =
    let taken : length (take (lo + hi * 256) rest) ≡ lo + hi * 256 =
      omega (arith, length-take (lo + hi * 256) rest) in
    let low : (lo + hi * 256) % 256 ≡ lo = omega arith in
    let high : (lo + hi * 256) / 256 % 256 ≡ hi = omega arith in
    rw (taken, low, high, take-append-drop (lo + hi * 256) rest)

PackedSplit-round :
    (id lo hi : ℕ) (rest : List ℕ) (rs : List PackedReport)
    → IsByte lo
    → IsByte hi
    → lo + hi * 256 ≤ length rest
    → PackedSplit (drop (lo + hi * 256) rest) rs
    → PackedSplit
        (id ∷ lo ∷ hi ∷ rest)
        (record { report_id = id; body = take (lo + hi * 256) rest } ∷ rs)
unfolding packed_frames
PackedSplit-round id lo hi rest rs h k fit (tail, e, cut) =
    let r : PackedReport = record { report_id = id; body = take (lo + hi * 256) rest } in
    (
      tail,
      sym (frame_of_round id lo hi rest h k fit)
          ∙ ap (λ t. packed_frame r ++ t) e
          ∙ sym (append_assoc (packed_frame r) (packed_frames rs) tail),
      cut,
    )

packed_loop-PackedSplit :
    (fuel : ℕ) (bin : List ℕ)
    → All IsByte bin
    → length bin ≤ fuel
    → (rs : List PackedReport) × (packed_loop fuel bin ≡ some rs) × PackedSplit bin rs
unfolding packed_loop packed_frames
packed_loop-PackedSplit fuel [] bytes h = ([], refl, ([], refl, tt))
packed_loop-PackedSplit fuel (id ∷ []) bytes h = ([], refl, (id ∷ [], refl, tt))
packed_loop-PackedSplit fuel (id ∷ lo ∷ []) bytes h = ([], refl, (id ∷ lo ∷ [], refl, tt))
packed_loop-PackedSplit zero (id ∷ lo ∷ hi ∷ rest) bytes h = absurd (omega arith)
packed_loop-PackedSplit (suc fuel) (id ∷ lo ∷ hi ∷ rest) (_, (b, (c, bytes))) h =
    elim (Bool-cases (ltb (length rest) (lo + hi * 256))) [
      | inl stop ↦
          ([], rw (join_bytes lo hi b, stop) refl, (id ∷ lo ∷ hi ∷ rest, refl, ground arith))
      | inr go ↦
          let fit : lo + hi * 256 ≤ length rest = ground arith in
          let (rs, e, split) =
            packed_loop-PackedSplit fuel (drop (lo + hi * 256) rest)
              (All-drop IsByte (lo + hi * 256) rest bytes)
              (omega (arith, length-drop (lo + hi * 256) rest)) in
          (
            record { report_id = id; body = take (lo + hi * 256) rest } ∷ rs,
            packed_round fuel id lo hi rest b fit
                ∙ ap
                    (Option.map
                      (λ rs. record { report_id = id; body = take (lo + hi * 256) rest } ∷ rs))
                    e,
            PackedSplit-round id lo hi rest rs b c fit split,
          )
    ]

deliver-reports :
    (bin : List ℕ) (targets : Option (List ℕ)) (delivery : Delivery)
    → deliver bin targets ≡ some delivery
    → (delivery.reports ≡ packed_loop (length bin) (drop 5 bin))
      × (delivery.device_id ≡ get_uint32 bin 1)
      × (targets ≡ some delivery.targets)
unfolding deliver
deliver-reports bin none delivery h = absurd cc
deliver-reports bin (some targets) delivery h = (cc, cc, cc)

delivered :
    (bin : List ℕ) (st : State) (delivery : Delivery)
    → on_packed_data bin st ≡ some delivery
    → deliver bin (tabs_for_event (get_uint32 bin 1) st) ≡ some delivery
unfolding on_packed_data
delivered bin st delivery h =
    elim (Bool-cases (ltb (length bin) 8 || not (byte_at bin 0 == pkg_input_report))) [
      | inl dropped ↦ absurd (let no : none ≡ some delivery = rw dropped at h in cc)
      | inr kept ↦ rw kept at h
    ]

-- A message that is delivered goes to the tabs that its device's events go to, the device being the one
-- in bytes 1 to 4. On any bytes the loop ends, and the reports are exactly those whose frames the bytes
-- from 5 on begin with: what follows them is less than a report.
pub on_packed_data-PackedSplit :
    (bin : List ℕ) (st : State) (delivery : Delivery)
    → All IsByte bin
    → on_packed_data bin st ≡ some delivery
    → (tabs_for_event (get_uint32 bin 1) st ≡ some delivery.targets)
      × ((rs : List PackedReport) × (delivery.reports ≡ some rs) × PackedSplit (drop 5 bin) rs)
on_packed_data-PackedSplit bin st delivery bytes h =
    let (rs, e, split) =
      packed_loop-PackedSplit (length bin) (drop 5 bin) (All-drop IsByte 5 bin bytes)
        (omega (arith, length-drop 5 bin)) in
    let (same, device, sent_to) =
      deliver-reports bin (tabs_for_event (get_uint32 bin 1) st) delivery
        (delivered bin st delivery h) in
    (sent_to, (rs, same ∙ e, split))
