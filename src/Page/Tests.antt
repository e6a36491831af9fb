-- ===== src/Page/Tests.antt =====
-- A device that is opened, sends a report that is answered, and is lost with another report pending.
use ff_web_hid.Prelude.{ℕ, ◌+◌, ◌≤◌, List, [], ◌∷◌, some, true, false, ◌&&◌, nat_eq, ◌≡◌}
use ff_web_hid.Page.State.{create_hid_device}
use ff_web_hid.Page.Reports.{Collections, collection, nil, cons, validate_report_id, any_report}
use ff_web_hid.Page.Reports.Ids.{all_reports, validate_report_id-any_report}
use ff_web_hid.Page.Calls.Kept.{makes, settles, opens, closes, total, is_pending, is_port}
use ff_web_hid.Page.Calls.Runs.{
  Operation, opening, answered_open, bridged_open, waited_open, sending, answered_report,
  port_disconnected, run,
}
use ff_web_hid.Page.Calls.Runs.Shut.{is_shut, run-IsSettled}

-- A collection whose child has a report with id 2.
abbrev keyboard : Collections
keyboard = cons (collection [] [] [] (cons (collection (2 ∷ []) [] [] nil) nil)) nil

abbrev session : List Operation
session =
    opening
    ∷ answered_open true
    ∷ bridged_open false (some 3)
    ∷ waited_open true
    ∷ sending 2 keyboard false false true
    ∷ answered_report 1 false
    ∷ sending 2 keyboard false false true
    ∷ port_disconnected
    ∷ []

run-IsSettled_example :
    (let x = run session (create_hid_device "d") in
      ((r : ℕ)
        → (total (makes r) x.1 ≡ total (settles r) x.1 + is_pending r x.0)
          × (total (makes r) x.1 ≤ 1))
      × (is_shut x.0 ≡ true)
      × ((p : ℕ) → total (opens p) x.1 ≡ total (closes p) x.1 + is_port p x.0.data_port)
      × ((x.0.plane_ready && x.0.plane_unavailable) ≡ false))
run-IsSettled_example = run-IsSettled "d" session

validate_report_id-any_report_example : validate_report_id 2 keyboard ≡ some 2
unfolding any_report all_reports
validate_report_id-any_report_example = validate_report_id-any_report 2 keyboard
