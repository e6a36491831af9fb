-- ===== src/Native/Client/Requests.antt =====
-- Every request of the Native Messaging client is answered once at most, and waits until it is.
pub mod Runs
use ff_web_hid.Prelude.{
  ℕ, suc, zero, ◌+◌, ◌<◌, String, List, [], ◌∷◌, ◌++◌, Option, none, some, Bool, true, false, ◌&&◌,
  ltb, ◌==◌, nat_eq, if◌then◌else◌, ◌≡◌, refl, arith, Option-cases, Bool-cases, inl, inr, ◌≢◌,
}
use ff_web_hid.Prelude.Maps.{contains}
use ff_web_hid.Ownership.State.{State}
use ff_web_hid.Native.Client.{
  Client, Message, Answer, Route, fresh_client, without, resolve_all, route, take_route,
  handle_native_message, schedule_reconnect, connect, reconnect_fired, unavailable, retire_port,
  port_disconnected, reconnect_with_new_host, send_frame, time_out, or_no_id, host_error,
  packed_data, control_event, pending_response, daemon_error, unmatched, rejected, resolved,
}

-- The client, and every answer that it has given, by request.
pub record Exchange : Type 0 where
  pub client : Client
  pub answered : List (ℕ × Answer)

abbrev pub start : Exchange
start = record { client = fresh_client; answered = [] }

-- An answer that send_frame gives at once.
abbrev pub at_once : Option ℕ → Option Answer → List (ℕ × Answer)
at_once (some id) (some answer) = (id, answer) ∷ []
at_once (some id) none = []
at_once none answer = []

-- `sent` is sendFrame, `received` a message on the port, `fired` the reconnection timer, `expired` the
-- deadline of a request, `disconnected` a port that is gone and `switched` a change of the host.
pub data Step (x : Exchange) : Exchange → Type 0 where
  sent :
      (given : Option ℕ) (posted : Bool)
      → Step x (record {
        client = (send_frame given posted x.client).0;
        answered =
            x.answered
            ++ at_once (send_frame given posted x.client).1 (send_frame given posted x.client).2;
      })
  received :
      (m : Message)
      → Step x (record {
        client = (handle_native_message m x.client).0;
        answered = x.answered ++ (handle_native_message m x.client).1;
      })
  fired : (given : Option ℕ) → Step x (record x { client = reconnect_fired given x.client })
  expired :
      (id : ℕ)
      → Step x (record {
        client = (time_out id x.client).0;
        answered = x.answered ++ (time_out id x.client).1;
      })
  disconnected :
      (port : ℕ) (st : State)
      → Step x (record {
        client = (port_disconnected port x.client st).0.0;
        answered = x.answered ++ (port_disconnected port x.client st).1;
      })
  switched :
      (given : Option ℕ) (st : State)
      → Step x (record {
        client = (reconnect_with_new_host given x.client st).0.0;
        answered = x.answered ++ (reconnect_with_new_host given x.client st).1;
      })

pub data Reach : Exchange → Type 0 where
  here : Reach start
  next : {x y : Exchange} → Reach x → Step x y → Reach y

-- How many times a request has been answered, and how many times it waits.
unfoldable pub answers : ℕ → List (ℕ × Answer) → ℕ
answers id [] = 0
answers id ((j, answer) ∷ more) = if j == id then answers id more + 1 else answers id more

unfoldable pub waits : ℕ → List ℕ → ℕ
waits id [] = 0
waits id (j ∷ ids) = if j == id then waits id ids + 1 else waits id ids

pub answers-append :
    (id : ℕ) (xs ys : List (ℕ × Answer)) → answers id (xs ++ ys) ≡ answers id xs + answers id ys
unfolding answers
answers-append id [] ys = ground arith
answers-append id ((j, answer) ∷ xs) ys = ground (arith, answers-append id xs ys)

pub waits-append : (id : ℕ) (xs ys : List ℕ) → waits id (xs ++ ys) ≡ waits id xs + waits id ys
unfolding waits
waits-append id [] ys = ground arith
waits-append id (j ∷ xs) ys = ground (arith, waits-append id xs ys)

pub waits-without :
    (id j : ℕ) (ids : List ℕ) → waits id (without j ids) ≡ (if j == id then 0 else waits id ids)
unfolding waits without
waits-without id j [] = ground arith
waits-without id j (k ∷ ids) = ground (arith, waits-without id j ids)

pub contains-waits : (id : ℕ) (ids : List ℕ) → contains id ids ≡ ltb 0 (waits id ids)
unfolding waits contains
contains-waits id [] = refl
contains-waits id (j ∷ ids) = ground (arith, contains-waits id ids)

pub answers-resolve_all :
    (id : ℕ) (m : Message) (ids : List ℕ) → answers id (resolve_all m ids) ≡ waits id ids
unfolding answers resolve_all waits
answers-resolve_all id m [] = refl
answers-resolve_all id m (j ∷ ids) = ground (arith, answers-resolve_all id m ids)

-- Ids are given from 1 on. One that has been given is answered once or waits once; no other does.
pub IsSettledOnce : Exchange → Type 0
IsSettledOnce x =
    (id : ℕ)
    → answers id x.answered + waits id x.client.pending
      ≡ (if ltb 0 id && ltb id x.client.next_id then 1 else 0)

pub connect-requests :
    (given : Option ℕ) (c : Client)
    → ((connect given c).pending ≡ c.pending) × ((connect given c).next_id ≡ c.next_id)
unfolding connect schedule_reconnect
connect-requests given c = (ground arith, ground arith)

-- The request of a response is one that waits.
pub route-pending :
    (m : Message) (c : Client)
    → route m c ≡ pending_response
    → contains (or_no_id m.request) c.pending ≡ true
unfolding route
route-pending m c h = elim (Option-cases m.request) [
  | inl missing ↦ ground (arith, missing)
  | inr (id, given) ↦ ground (arith, given)
]

pub take_route-kept :
    (r : Route) (m : Message) (x : Exchange) (id : ℕ)
    → (r ≡ pending_response → waits (or_no_id m.request) x.client.pending ≡ 1)
    → answers id (x.answered ++ (take_route r m x.client).1)
        + waits id (take_route r m x.client).0.pending
      ≡ answers id x.answered + waits id x.client.pending
unfolding take_route answers waits
take_route-kept host_error m x id h = ground (
  arith,
  answers-append id x.answered (resolve_all m x.client.pending),
  answers-resolve_all id m x.client.pending,
)
take_route-kept pending_response m x id h = ground (
  arith,
  h refl,
  answers-append id x.answered ((or_no_id m.request, resolved m) ∷ []),
  waits-without id (or_no_id m.request) x.client.pending,
)
take_route-kept packed_data m x id h = ground (arith, answers-append id x.answered [])
take_route-kept control_event m x id h = ground (arith, answers-append id x.answered [])
take_route-kept daemon_error m x id h = ground (arith, answers-append id x.answered [])
take_route-kept unmatched m x id h = ground (arith, answers-append id x.answered [])
