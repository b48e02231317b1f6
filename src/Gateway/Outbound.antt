-- ===== src/Gateway/Outbound.antt =====
-- What the gateway sends: `enqueue`, `trackFrame` and `handleFrameAck`. A socket's queue is the list of the
-- messages in it, among them the one that is being sent; when the queue, which is a library's, runs its next
-- task is a step `send_next`. The version of an event is left out.
use pokerhub.Gateway.Types.{Outgoing, server_error, throttled, Frame, Gateway, Message, Settings}
use pokerhub.Prelude.{
  ◌==◌, none, Bool, not, length, ◌∷◌, ◌++◌, filter, ◌&&◌, update_first, [], if◌then◌else◌, ℕ, leb,
  find, some, List, ◌+◌,
}
use pokerhub.Prelude.Assoc.{set_at, read_at}

unfoldable pub waiting_of : ℕ → Gateway → List Outgoing
unfolding read_at
waiting_of socket g = elim (read_at socket g.waiting) [ none ↦ [] | some out ↦ out ]

-- `client.emit(...)`
abbrev pub emit : ℕ → Message → Gateway → Gateway
emit socket message g = record g { emitted = g.emitted ++ (socket, message) ∷ [] }

-- `enqueue(client, event, args, critical)`.
unfoldable pub enqueue : Settings → ℕ → Message → Bool → Gateway → Gateway
unfolding waiting_of
enqueue settings socket message critical g =
    let out = waiting_of socket g in
    if leb settings.queue_limit (length out)
    then emit socket (server_error throttled) g
    else record g { waiting = set_at socket (out ++ (message, critical) ∷ []) g.waiting }

-- `trackFrame(client, event, args)`
abbrev pub track_frame : ℕ → ℕ → Message → Gateway → Gateway
track_frame socket frame_id message g = record g {
  frames =
      record { socket = socket; frame_id = frame_id; message = message; attempt = 1 } ∷ g.frames;
}

-- The task of the first message in a socket's queue; `frame_id` is the `randomUUID()`.
unfoldable pub send_next : ℕ → ℕ → Gateway → Gateway
unfolding waiting_of
send_next socket frame_id g = elim (waiting_of socket g) [
  | [] ↦ g
  | (message, critical) ∷ out ↦
      let sent = emit socket message (record g { waiting = set_at socket out g.waiting }) in
      if critical then track_frame socket frame_id message sent else sent
]

abbrev pub is_frame : ℕ → ℕ → Frame → Bool
is_frame socket frame_id f = f.socket == socket && f.frame_id == frame_id

-- `maxFrameAttempts`
abbrev max_attempts : ℕ
max_attempts = 5

-- The timeout of a frame: it is sent again, and given up after the last attempt.
unfoldable pub retry_frame : ℕ → ℕ → Gateway → Gateway
retry_frame socket frame_id g = elim (find (is_frame socket frame_id) g.frames) [
  | none ↦ g
  | some f ↦
      let more = f.attempt + 1 in
      let sent = emit socket f.message g in
      record sent {
        frames =
            if leb max_attempts more
            then filter (λ e. not (is_frame socket frame_id e)) g.frames
            else update_first (is_frame socket frame_id) (λ e. record e { attempt = more })
                g.frames;
      }
]

-- `handleFrameAck(client, payload)`
unfoldable pub ack_frame : ℕ → ℕ → Gateway → Gateway
ack_frame socket frame_id g = record g {
  frames = filter (λ e. not (is_frame socket frame_id e)) g.frames;
}
