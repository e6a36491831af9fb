-- ===== src/Messages/Destroyed.antt =====
-- handleFrameDestroyed of addon/js/background/messages.js, and the keys frameKey and documentFrameKey of
-- addon/js/background/csp.js.
use Prim.Native.String.{◌++◌ as concat}
use ff_web_hid.Prelude.{
  ℕ, String, List, Option, none, some, Bool, true, false, ◌==◌, nat_eq, string_eq, if◌then◌else◌,
}
use ff_web_hid.Prelude.Texts.{is_blank, decimal}
use ff_web_hid.Ownership.State.{State}
use ff_web_hid.Ownership.Cleanup.{Closing}
use ff_web_hid.Ownership.Purge.{purge_frame}

-- `${tabId}:${frameId}:${documentId || ''}`, and the same with an origin for frameKey.
unfoldable pub document_frame_key : ℕ → ℕ → String → String
document_frame_key tab frame document =
    concat (decimal tab) (concat ":" (concat (decimal frame) (concat ":" document)))

abbrev pub frame_key : ℕ → ℕ → String → String
frame_key tab frame origin = document_frame_key tab frame origin

-- The frame and the document of the message, and those of its sender; the empty text stands for no
-- document, and none for a frame id that is no natural number.
pub record DestroyedFrame : Type 0 where
  pub frame_key : String
  pub frame_id : Option ℕ
  pub document_id : String
  pub sender_frame_id : Option ℕ
  pub sender_document_id : String

same_frame : Option ℕ → Option ℕ → Bool
same_frame none none = true
same_frame none (some n) = false
same_frame (some m) none = false
same_frame (some m) (some n) = m == n

unfoldable pub destroyed_frame : DestroyedFrame → Option ℕ
destroyed_frame req = elim req.frame_id [ none ↦ req.sender_frame_id | some frame ↦ some frame ]

unfoldable pub destroyed_document : DestroyedFrame → String
unfolding same_frame destroyed_frame
destroyed_document req =
    if is_blank req.document_id
    then (if same_frame (destroyed_frame req) req.sender_frame_id
        then req.sender_document_id
        else "")
    else req.document_id

key_of : Option ℕ → Option ℕ → String → Option String
key_of none frame document = none
key_of (some tab) none document = none
key_of (some tab) (some frame) document =
    if is_blank document then none else some (document_frame_key tab frame document)

-- The key that is deleted from the policies and the delegations, none when there is none; the deletes are
-- `forget_document` of Policy.Frames.
unfoldable pub forgotten_key : DestroyedFrame → Option ℕ → Option String
unfolding destroyed_frame destroyed_document key_of
forgotten_key req tab = key_of tab (destroyed_frame req) (destroyed_document req)

unfoldable pub handle_frame_destroyed :
    DestroyedFrame → Option ℕ → State → (State × List Closing) × Option String
handle_frame_destroyed req tab st = (purge_frame tab req.frame_key st, forgotten_key req tab)
