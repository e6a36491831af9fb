-- ===== src/Native/Tests.antt =====
-- The Native Messaging side at concrete messages, ports and devices.
use ff_web_hid.Prelude.{
  ℕ, ◌+◌, ◌*◌, ◌^◌, min, List, [], ◌∷◌, none, some, Bool, true, ◌==◌, nat_eq, ◌≡◌, refl, arith,
  drop, All,
}
use ff_web_hid.Prelude.Maps.{contains, get, put, keys_where}
use ff_web_hid.Prelude.Bytes.{IsByte, get_uint32}
use ff_web_hid.Ownership.State.{State, empty, inner, put_in}
use ff_web_hid.Ownership.Opens.{register_device_tab, tabs_for_event}
use ff_web_hid.Native.Client.{Client, fresh_client, connect, reconnect_fired, send_frame}
use ff_web_hid.Native.Client.Requests.{Exchange, Reach, here, next, sent, fired, answers, waits}
use ff_web_hid.Native.Client.Requests.Runs.{Reach-IsSettledOnce}
use ff_web_hid.Native.Client.Backoff.{after_failures, reconnect_delay-after_failures}
use ff_web_hid.Native.Frames.{PackedReport, packed_loop, Delivery, on_packed_data}
use ff_web_hid.Native.Frames.RoundTrip.{PackedSplit, on_packed_data-PackedSplit}
use ff_web_hid.Native.Posts.{
  ContentPort, post_to_content_ports, forward_rest, event_delivered_once, keep_where, is_addressed,
  times, has_tab,
}
use ff_web_hid.Native.Devices.{
  Device, ConnectionEvent, find_device, cache_after, evt_connect, HasDistinctIds,
  cache_after_effect,
}

-- The client with port 4, after two requests.
abbrev busy : Client
busy = record fresh_client { port = some 4; next_id = 3; pending = 1 ∷ 2 ∷ [] }

abbrev busy_exchange : Exchange
busy_exchange = record { client = busy; answered = [] }

busy_run : Reach busy_exchange
unfolding send_frame connect reconnect_fired
busy_run = next (next (next here (fired (some 4))) (sent none true)) (sent none true)

Reach-IsSettledOnce_example : answers 2 [] + waits 2 (1 ∷ 2 ∷ []) ≡ 1
Reach-IsSettledOnce_example = Reach-IsSettledOnce 2 busy_run

reconnect_delay-after_failures_example :
    (let after = after_failures 5 fresh_client in
      (after.port ≡ none)
      × (after.reconnect_timer ≡ some (min (1000 * 2 ^ 4) 10000))
      × (after.reconnect_delay ≡ min (1000 * 2 ^ 5) 10000))
reconnect_delay-after_failures_example = reconnect_delay-after_failures 4 fresh_client refl refl

-- Device 9 is open in tab 3; the message has a report of two bytes and a cut one.
abbrev opened : State
opened = register_device_tab 9 (some 3) empty

abbrev packed : List ℕ
packed = 1 ∷ 9 ∷ 0 ∷ 0 ∷ 0 ∷ 7 ∷ 2 ∷ 0 ∷ 10 ∷ 20 ∷ 8 ∷ 1 ∷ []

abbrev packed_delivery : Delivery
packed_delivery = record {
  device_id = 9;
  targets = 3 ∷ [];
  reports = packed_loop 12 (7 ∷ 2 ∷ 0 ∷ 10 ∷ 20 ∷ 8 ∷ 1 ∷ []);
}

packed-delivered : on_packed_data packed opened ≡ some packed_delivery
unfolding on_packed_data tabs_for_event register_device_tab put_in inner get put keys_where
packed-delivered = refl

packed-bytes : All IsByte packed
packed-bytes = (
  omega arith,
  (
    omega arith,
    (
      omega arith,
      (
        omega arith,
        (
          omega arith,
          (
            omega arith,
            (
              omega arith,
              (omega arith, (omega arith, (omega arith, (omega arith, (omega arith, tt))))),
            ),
          ),
        ),
      ),
    ),
  ),
)

on_packed_data-PackedSplit_example :
    (tabs_for_event (get_uint32 packed 1) opened ≡ some (3 ∷ []))
    × ((rs : List PackedReport) × (packed_delivery.reports ≡ some rs)
        × PackedSplit (drop 5 packed) rs)
on_packed_data-PackedSplit_example =
    on_packed_data-PackedSplit packed opened packed_delivery packed-bytes packed-delivered

abbrev data_port : ContentPort
data_port = record { id = 1; name = "webhid-data:9"; tab_id = some 3 }

abbrev dead_port : ContentPort
dead_port = record { id = 2; name = "webhid-data:9"; tab_id = some 5 }

abbrev is_dead : ContentPort → Bool
is_dead port = port.id == 2

event_delivered_once_example :
    (let r =
        post_to_content_ports is_dead (3 ∷ 5 ∷ []) "webhid-data:9" (data_port ∷ dead_port ∷ []) in
      (r.posted ≡ data_port ∷ []) × (times 5 (forward_rest r.reached (3 ∷ 5 ∷ [])) ≡ 1))
unfolding keep_where is_addressed times has_tab post_to_content_ports contains
event_delivered_once_example =
    event_delivered_once is_dead (3 ∷ 5 ∷ []) "webhid-data:9" (data_port ∷ dead_port ∷ []) 5

abbrev pad : Device
pad = record { device_id = 9; description = "pad" }

abbrev plugged : ConnectionEvent
plugged = record { kind = evt_connect; device_id = 9; device = some pad }

cache_after_effect_example :
    HasDistinctIds (cache_after plugged []) × (find_device 9 (cache_after plugged []) ≡ some pad)
unfolding find_device
cache_after_effect_example = cache_after_effect plugged pad 9 [] refl tt
