-- ===== src/Native/Client/Backoff.antt =====
-- The reconnection of the Native Messaging client: its delays, and that it is never given up.
use ff_web_hid.Prelude.{
  ℕ, suc, zero, ◌*◌, ◌^◌, min, [], none, some, ◌==◌, nat_eq, if◌then◌else◌, ◌≡◌, ◌≢◌, arith,
}
use ff_web_hid.Ownership.State.{State}
use ff_web_hid.Ownership.Purge.{clear_authority_ownership}
use ff_web_hid.Native.Client.{
  Client, resolve_all, unavailable, schedule_reconnect, connect, reconnect_fired, retire_port,
  port_disconnected, next_delay,
}

-- The client after a number of reconnections that failed, one after the other.
unfoldable pub after_failures : ℕ → Client → Client
after_failures zero c = c
after_failures (suc n) c = reconnect_fired none (after_failures n c)

next_delay_doubled : (n : ℕ) → next_delay (min (1000 * 2 ^ n) 10000) ≡ min (1000 * 2 ^ suc n) 10000
next_delay_doubled n = ground (arith)

-- The delays double from one second up to ten: after a number of failed reconnections without a port,
-- the timer that runs and the delay that comes next are the powers of two that far, ten seconds at most.
pub reconnect_delay-after_failures :
    (n : ℕ) (c : Client)
    → c.port ≡ none
    → c.reconnect_delay ≡ 1000
    → (let after = after_failures (suc n) c in
        (after.port ≡ none)
        × (after.reconnect_timer ≡ some (min (1000 * 2 ^ n) 10000))
        × (after.reconnect_delay ≡ min (1000 * 2 ^ suc n) 10000))
unfolding after_failures reconnect_fired connect schedule_reconnect
reconnect_delay-after_failures zero c h e = ground (arith)
reconnect_delay-after_failures (suc n) c h e =
    let (port, timer, delay) = reconnect_delay-after_failures n c h e in
    ground (arith, port, timer, delay, next_delay_doubled (suc n))

-- When the port in use is gone: there is no port, no request waits any more, each that did is answered
-- with status 503, the ownership is cleared and a reconnection is on its way. When another port is
-- gone, nothing changes.
pub port_disconnected_effect :
    (port current : ℕ) (c : Client) (st : State)
    → c.port ≡ some current
    → (let r = port_disconnected port c st in
        if current == port
        then (r.0.0.port ≡ none)
          × (r.0.0.pending ≡ [])
          × (r.0.0.reconnect_timer ≢ none)
          × (r.0.1 ≡ clear_authority_ownership st)
          × (r.1 ≡ resolve_all unavailable c.pending)
        else r ≡ ((c, st), []))
unfolding port_disconnected retire_port schedule_reconnect
port_disconnected_effect port current c st h = ground (arith, h)
