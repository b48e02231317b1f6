-- ===== src/Gateway/Limits.antt =====
-- `getRateLimitKey` and `isRateLimited`. A counter that Redis lets expire is removed by a step of its own.
use pokerhub.Gateway.Types.{
  server_error, or_else, or_number, Client, Gateway, rate_limited, Settings,
}
use pokerhub.Prelude.{Bool, false, if◌then◌else◌, ℕ, ◌+◌, ltb, true}
use pokerhub.Gateway.Outbound.{emit, enqueue}
use pokerhub.Prelude.Assoc.{remove_at, set_at, read_at}

-- `getRateLimitKey(client)`: a user and an address are names in the same space.
unfoldable pub rate_key : Client → ℕ
rate_key c =
    or_number
      (or_else (or_else c.data_user c.auth_user)
        (or_else c.forwarded_for (or_else c.address c.remote_address)))
      c.id

unfoldable pub counter_of : ℕ → Gateway → ℕ
unfolding read_at
counter_of key g = or_number (read_at key g.counters) 0

-- The two `incr`.
unfoldable pub count_message : ℕ → Gateway → Gateway
unfolding counter_of
count_message key g = record g {
  counters = set_at key (counter_of key g + 1) g.counters;
  global_count = g.global_count + 1;
}

-- `isRateLimited(client)`: whether the message is refused.
unfoldable pub is_rate_limited : Settings → Client → Gateway → Gateway × Bool
unfolding rate_key counter_of count_message enqueue
is_rate_limited settings c g =
    let counted = count_message (rate_key c) g in
    if ltb settings.global_limit counted.global_count
    then (enqueue settings c.id (server_error rate_limited) false counted, true)
    else if ltb 30 (counter_of (rate_key c) counted)
    then (emit c.id (server_error rate_limited) counted, true)
    else (counted, false)

-- Redis lets a counter expire.
abbrev pub expire_counter : ℕ → Gateway → Gateway
expire_counter key g = record g { counters = remove_at key g.counters }

abbrev pub expire_global : Gateway → Gateway
expire_global g = record g { global_count = 0 }
