-- ===== src/Page/Reports/Ids.antt =====
-- The tests of report ids against all the reports of a device's collections, however deep they lie.
use ff_web_hid.Prelude.{
  ℕ, List, [], ◌∷◌, ◌++◌, none, some, true, ◌==◌, nat_eq, if◌then◌else◌, ◌≡◌, refl, arith,
}
use ff_web_hid.Page.Reports.{
  Collection, Collections, collection, nil, cons, any_report, collection_uses_report_ids,
  device_uses_report_ids, validate_report_id,
}

-- The report ids of a collection, those of its children after its own.
unfoldable mutual
  pub reports_of : Collection → List ℕ
  reports_of (collection inputs outputs features children) =
      (inputs ++ (outputs ++ features)) ++ all_reports children

  pub all_reports : Collections → List ℕ
  all_reports nil = []
  all_reports (cons c cs) = reports_of c ++ all_reports cs

any_report-append :
    (xs ys : List ℕ) → any_report (xs ++ ys) ≡ (if any_report xs then true else any_report ys)
unfolding any_report
any_report-append [] ys = refl
any_report-append (x ∷ xs) ys = ground (arith, any_report-append xs ys)

mutual
  unfolding collection_uses_report_ids any_report reports_of

  collection_uses_report_ids-any_report :
      (c : Collection) → collection_uses_report_ids c ≡ any_report (reports_of c)
  collection_uses_report_ids-any_report (collection inputs outputs features children) = ground (
    arith,
    any_report-append (inputs ++ (outputs ++ features)) (all_reports children),
    device_uses_report_ids-any_report children,
  )

  device_uses_report_ids-any_report :
      (cs : Collections) → device_uses_report_ids cs ≡ any_report (all_reports cs)
  device_uses_report_ids-any_report nil = refl
  device_uses_report_ids-any_report (cons c cs) = ground (
    arith,
    any_report-append (reports_of c) (all_reports cs),
    collection_uses_report_ids-any_report c,
    device_uses_report_ids-any_report cs,
  )

-- A report id is accepted, and then unchanged, exactly when it is 0 and no report of the collections, at
-- any depth, has another id, or it is not 0 and some report has one.
pub validate_report_id-any_report :
    (report_id : ℕ) (cs : Collections)
    → validate_report_id report_id cs ≡ (
        if any_report (all_reports cs)
        then (if report_id == 0 then none else some report_id)
        else if report_id == 0
        then some report_id
        else none)
unfolding validate_report_id
validate_report_id-any_report report_id cs = ground (arith, device_uses_report_ids-any_report cs)
