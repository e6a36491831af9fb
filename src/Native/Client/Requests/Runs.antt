-- ===== src/Native/Client/Requests/Runs.antt =====
-- Every step keeps the account of the requests.
use ff_web_hid.Prelude.{
  ℕ, ◌+◌, ◌<◌, [], ◌∷◌, ◌++◌, Option, none, Bool, ◌&&◌, ltb, nat_eq, if◌then◌else◌, ◌≡◌, arith,
  Option-cases, inl, inr,
}
use ff_web_hid.Ownership.State.{State}
use ff_web_hid.Native.Client.{
  Client, Message, resolve_all, route, take_route, handle_native_message, schedule_reconnect,
  or_no_id, connect, reconnect_fired, unavailable, retire_port, port_disconnected,
  reconnect_with_new_host, send_frame, time_out, rejected, timed_out, post_failed, pending_response,
}
use ff_web_hid.Native.Client.Requests.{
  Exchange, start, at_once, Step, Reach, sent, received, fired, expired, disconnected, switched,
  here, next, answers, waits, IsSettledOnce, answers-append, waits-append, waits-without,
  contains-waits, answers-resolve_all, route-pending, take_route-kept, connect-requests,
}

IsSettledOnce-sent :
    (given : Option ℕ) (posted : Bool) (x : Exchange)
    → 0 < x.client.next_id
    → IsSettledOnce x
    → IsSettledOnce (record {
      client = (send_frame given posted x.client).0;
      answered =
          x.answered
          ++ at_once (send_frame given posted x.client).1 (send_frame given posted x.client).2;
    })
unfolding send_frame IsSettledOnce answers waits
IsSettledOnce-sent given posted x pos h id = elim (Option-cases x.client.port) [
  | inl unconnected ↦
      ground
        (arith, unconnected, h id, connect-requests given x.client, answers-append id x.answered [])
  | inr (port, connected) ↦
      let new = x.client.next_id ∷ [] in
      ground (
        arith,
        connected,
        h id,
        waits-append id x.client.pending new,
        waits-without id x.client.next_id (x.client.pending ++ new),
        answers-append id x.answered [],
        answers-append id x.answered ((x.client.next_id, rejected post_failed) ∷ []),
      )
]

take_route-next_id : (m : Message) (c : Client) → (handle_native_message m c).0.next_id ≡ c.next_id
unfolding handle_native_message take_route
take_route-next_id m c = ground (arith)

IsSettledOnce-received :
    (m : Message) (x : Exchange)
    → IsSettledOnce x
    → IsSettledOnce (record {
      client = (handle_native_message m x.client).0;
      answered = x.answered ++ (handle_native_message m x.client).1;
    })
unfolding IsSettledOnce handle_native_message
IsSettledOnce-received m x h id =
    ground (
      arith,
      take_route-next_id m x.client,
      h id,
      take_route-kept (route m x.client) m x id waiting,
    )
  where
    waiting : route m x.client ≡ pending_response → waits (or_no_id m.request) x.client.pending ≡ 1
    waiting e = ground (
      arith,
      route-pending m x.client e,
      contains-waits (or_no_id m.request) x.client.pending,
      h (or_no_id m.request),
    )

IsSettledOnce-expired :
    (j : ℕ) (x : Exchange)
    → IsSettledOnce x
    → IsSettledOnce (record {
      client = (time_out j x.client).0;
      answered = x.answered ++ (time_out j x.client).1;
    })
unfolding time_out IsSettledOnce answers
IsSettledOnce-expired j x h id = ground (
  arith,
  h id,
  h j,
  contains-waits j x.client.pending,
  waits-without id j x.client.pending,
  answers-append id x.answered ((j, rejected timed_out) ∷ []),
  answers-append id x.answered [],
)

IsSettledOnce-disconnected :
    (port : ℕ) (st : State) (x : Exchange)
    → IsSettledOnce x
    → IsSettledOnce (record {
      client = (port_disconnected port x.client st).0.0;
      answered = x.answered ++ (port_disconnected port x.client st).1;
    })
unfolding port_disconnected retire_port schedule_reconnect IsSettledOnce answers waits
IsSettledOnce-disconnected port st x h id = ground (
  arith,
  h id,
  answers-resolve_all id unavailable x.client.pending,
  answers-append id x.answered (resolve_all unavailable x.client.pending),
  answers-append id x.answered [],
)

IsSettledOnce-switched :
    (given : Option ℕ) (st : State) (x : Exchange)
    → IsSettledOnce x
    → IsSettledOnce (record {
      client = (reconnect_with_new_host given x.client st).0.0;
      answered = x.answered ++ (reconnect_with_new_host given x.client st).1;
    })
unfolding reconnect_with_new_host retire_port connect schedule_reconnect IsSettledOnce answers waits
IsSettledOnce-switched given st x h id = ground (
  arith,
  h id,
  answers-resolve_all id unavailable x.client.pending,
  answers-append id x.answered (resolve_all unavailable x.client.pending),
  answers-append id x.answered [],
)

IsSettledOnce-fired :
    (given : Option ℕ) (x : Exchange)
    → IsSettledOnce x
    → IsSettledOnce (record x { client = reconnect_fired given x.client })
unfolding reconnect_fired IsSettledOnce
IsSettledOnce-fired given x h id =
    ground (arith, h id, connect-requests given (record x.client { reconnect_timer = none }))

switched-next_id :
    (given : Option ℕ) (c : Client) (st : State)
    → (reconnect_with_new_host given c st).0.0.next_id ≡ c.next_id
unfolding reconnect_with_new_host retire_port connect schedule_reconnect
switched-next_id given c st = ground arith

Step-positive : {x y : Exchange} → Step x y → 0 < x.client.next_id → 0 < y.client.next_id
unfolding send_frame reconnect_fired time_out port_disconnected retire_port schedule_reconnect
Step-positive {x} (sent given posted) h = ground (arith, connect-requests given x.client)
Step-positive {x} (received m) h = ground (arith, take_route-next_id m x.client)
Step-positive {x} (fired given) h =
    ground (arith, connect-requests given (record x.client { reconnect_timer = none }))
Step-positive {x} (expired id) h = ground arith
Step-positive {x} (disconnected port st) h = ground arith
Step-positive {x} (switched given st) h = ground (arith, switched-next_id given x.client st)

Reach-positive : {x : Exchange} → Reach x → 0 < x.client.next_id
Reach-positive here = omega arith
Reach-positive (next r s) = Step-positive s (Reach-positive r)

Step-IsSettledOnce :
    {x y : Exchange} → Step x y → 0 < x.client.next_id → IsSettledOnce x → IsSettledOnce y
Step-IsSettledOnce {x} (sent given posted) pos h = IsSettledOnce-sent given posted x pos h
Step-IsSettledOnce {x} (received m) pos h = IsSettledOnce-received m x h
Step-IsSettledOnce {x} (fired given) pos h = IsSettledOnce-fired given x h
Step-IsSettledOnce {x} (expired id) pos h = IsSettledOnce-expired id x h
Step-IsSettledOnce {x} (disconnected port st) pos h = IsSettledOnce-disconnected port st x h
Step-IsSettledOnce {x} (switched given st) pos h = IsSettledOnce-switched given st x h

start-IsSettledOnce : IsSettledOnce start
unfolding IsSettledOnce answers waits
start-IsSettledOnce id = ground arith

-- In every run, with messages, deadlines, failures to post, lost ports and changes of host in any order:
-- a request id that has been given out, which are those from 1 on below the next one, is either answered
-- exactly once and waits no more, or has no answer and waits exactly once; no other id is answered or
-- waits.
pub Reach-IsSettledOnce :
    {x : Exchange} (id : ℕ)
    → Reach x
    → answers id x.answered + waits id x.client.pending
      ≡ (if ltb 0 id && ltb id x.client.next_id then 1 else 0)
unfolding IsSettledOnce
Reach-IsSettledOnce id r = settled r id
  where
    settled : {x : Exchange} → Reach x → IsSettledOnce x
    settled here = start-IsSettledOnce
    settled (next r s) = Step-IsSettledOnce s (Reach-positive r) (settled r)
