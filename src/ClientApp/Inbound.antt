-- ===== src/ClientApp/Inbound.antt =====
-- ReadServerMessage of cmd/client/main.go, and the messages that readLoop of
-- internal/core/clientapp/clientapp.go gets from it.
use claude_share.Base.{
  ◌≡◌, refl, inl, inr, Bool, true, false, bytes_eq, bytes_eq_iff, Option, none, some, [],
  if◌then◌else◌, Result, Result-cases, Bool-cases, Option-cases, ok, err,
}
use claude_share.Protocol.{Json, unmarshal_data, StreamEventData, TurnDoneData}
use claude_share.Protocol.MessageType
use claude_share.Ws.Conn.{Framed}
use claude_share.ClientApp.{
  ServerMessage, Ports, App, handle_message, apply_change, offer_sync, offer_ready,
}

-- A message of which only the type and the content are set.
abbrev bare : Framed → ServerMessage
bare f = record {
  typ = f.env.typ;
  session_ready = none;
  sync_request = none;
  stream_event = none;
  file_change = none;
  content = f.content;
  turn_done = none;
  error = none;
}

unfoldable pub server_message : Json → Framed → Result ServerMessage
unfolding unmarshal_data
server_message json f =
    let typ = f.env.typ in
    if bytes_eq typ MessageType.session_ready
    then elim (unmarshal_data json.session_ready (record { session_id = [] }) f.env) [
      | err e ↦ err e
      | ok d ↦ ok (record (bare f) { session_ready = some d })
    ]
    else if bytes_eq typ MessageType.sync_request
    then elim (unmarshal_data json.sync_request (record { missing = [] }) f.env) [
      | err e ↦ err e
      | ok d ↦ ok (record (bare f) { sync_request = some d })
    ]
    else if bytes_eq typ MessageType.stream_event
    then elim (unmarshal_data json.stream_event (record { kind = []; text = []; raw = [] }) f.env) [
      | err e ↦ err e
      | ok d ↦ ok (record (bare f) { stream_event = some d })
    ]
    else if bytes_eq typ MessageType.file_change
    then elim (unmarshal_data json.file_change
        (record { op = []; path = []; mode = 0; hash = []; stream_id = 0; size = 0 }) f.env) [
          | err e ↦ err e
          | ok d ↦ ok (record (bare f) { file_change = some d })
        ]
    else if bytes_eq typ MessageType.turn_done
    then elim (unmarshal_data json.turn_done
        (record { is_error = false; cost_usd = 0; text = []; num_turns = 0 }) f.env) [
          | err e ↦ err e
          | ok d ↦ ok (record (bare f) { turn_done = some d })
        ]
    else if bytes_eq typ MessageType.error
    then elim (unmarshal_data json.error (record { message = [] }) f.env) [
      | err e ↦ err e
      | ok d ↦ ok (record (bare f) { error = some d })
    ]
    else ok (bare f)

-- `ReadServerMessage`, for what ReadMessage returned.
unfoldable pub read_server_message : Json → Result Framed → Result ServerMessage
unfolding server_message
read_server_message json (err e) = err e
read_server_message json (ok f) = server_message json f

abbrev is_set : {A : Type 0} → Option A → Bool
is_set none = false
is_set (some a) = true

-- The pointer that belongs to the type of a message is set.
unfoldable pub is_complete : ServerMessage → Bool
is_complete m =
    if bytes_eq m.typ MessageType.session_ready
    then is_set m.session_ready
    else if bytes_eq m.typ MessageType.sync_request
    then is_set m.sync_request
    else if bytes_eq m.typ MessageType.stream_event
    then is_set m.stream_event
    else if bytes_eq m.typ MessageType.file_change
    then is_set m.file_change
    else if bytes_eq m.typ MessageType.turn_done
    then is_set m.turn_done
    else if bytes_eq m.typ MessageType.error
    then is_set m.error
    else true

decoded_lem :
    {A : Type 0} (r : Result A) (g : A → ServerMessage) (m : ServerMessage)
    → Path (Result ServerMessage) (elim r [ err e ↦ err e | ok d ↦ ok (g d) ]) (ok m)
    → ((d : A) → is_complete (g d) ≡ true)
    → is_complete m ≡ true
decoded_lem (err e) g m h each = cc h
decoded_lem (ok d) g m h each = let e : g d ≡ m = cc h in rw (← e) (each d)

server_message-is_complete :
    (json : Json) (f : Framed) (m : ServerMessage)
    → server_message json f ≡ ok m
    → is_complete m ≡ true
unfolding server_message is_complete bytes_eq
server_message-is_complete json f m h =
    elim (Bool-cases (bytes_eq f.env.typ MessageType.session_ready)) [
      | inl q ↦
          let t : f.env.typ ≡ MessageType.session_ready =
            (bytes_eq_iff f.env.typ MessageType.session_ready).0 q in
          decoded_lem (unmarshal_data json.session_ready (record { session_id = [] }) f.env)
            (λ d. record (bare f) { session_ready = some d }) m (rw (q) at h) (λ d. rw t refl)
      | inr session_ready_no ↦ elim (Bool-cases (bytes_eq f.env.typ MessageType.sync_request)) [
        | inl q ↦
            let t : f.env.typ ≡ MessageType.sync_request =
              (bytes_eq_iff f.env.typ MessageType.sync_request).0 q in
            decoded_lem (unmarshal_data json.sync_request (record { missing = [] }) f.env)
              (λ d. record (bare f) { sync_request = some d }) m (rw (session_ready_no, q) at h)
              (λ d. rw t refl)
        | inr sync_request_no ↦ elim (Bool-cases (bytes_eq f.env.typ MessageType.stream_event)) [
          | inl q ↦
              let t : f.env.typ ≡ MessageType.stream_event =
                (bytes_eq_iff f.env.typ MessageType.stream_event).0 q in
              decoded_lem
                (unmarshal_data json.stream_event (record { kind = []; text = []; raw = [] }) f.env)
                (λ d. record (bare f) { stream_event = some d }) m
                (rw (session_ready_no, sync_request_no, q) at h) (λ d. rw t refl)
          | inr stream_event_no ↦ elim (Bool-cases (bytes_eq f.env.typ MessageType.file_change)) [
            | inl q ↦
                let t : f.env.typ ≡ MessageType.file_change =
                  (bytes_eq_iff f.env.typ MessageType.file_change).0 q in
                decoded_lem
                  (unmarshal_data json.file_change
                    (record { op = []; path = []; mode = 0; hash = []; stream_id = 0; size = 0 })
                    f.env)
                  (λ d. record (bare f) { file_change = some d }) m
                  (rw (session_ready_no, sync_request_no, stream_event_no, q) at h) (λ d. rw t refl)
            | inr file_change_no ↦ elim (Bool-cases (bytes_eq f.env.typ MessageType.turn_done)) [
              | inl q ↦
                  let t : f.env.typ ≡ MessageType.turn_done =
                    (bytes_eq_iff f.env.typ MessageType.turn_done).0 q in
                  decoded_lem
                    (unmarshal_data json.turn_done
                      (record { is_error = false; cost_usd = 0; text = []; num_turns = 0 }) f.env)
                    (λ d. record (bare f) { turn_done = some d }) m
                    (rw (session_ready_no, sync_request_no, stream_event_no, file_change_no, q) at
                      h)
                    (λ d. rw t refl)
              | inr turn_done_no ↦ elim (Bool-cases (bytes_eq f.env.typ MessageType.error)) [
                | inl q ↦
                    let t : f.env.typ ≡ MessageType.error =
                      (bytes_eq_iff f.env.typ MessageType.error).0 q in
                    decoded_lem (unmarshal_data json.error (record { message = [] }) f.env)
                      (λ d. record (bare f) { error = some d }) m
                      (rw
                        (
                          session_ready_no, sync_request_no, stream_event_no, file_change_no,
                          turn_done_no, q,
                        )
                        at h)
                      (λ d. rw t refl)
                | inr error_no ↦
                    let e : bare f ≡ m = cc (
                      rw
                        (
                          session_ready_no, sync_request_no, stream_event_no, file_change_no,
                          turn_done_no, error_no,
                        )
                        at h) in
                    rw
                      (
                        ← e,
                        session_ready_no,
                        sync_request_no,
                        stream_event_no,
                        file_change_no,
                        turn_done_no,
                        error_no,
                      )
                      refl
              ]
            ]
          ]
        ]
      ]
    ]

-- A renderer that does not fail on what is not nil.
pub record Shows (p : Ports) : Type 0 where
  pub event_shown : (d : StreamEventData) (o : p.Outside) → (p.show_event (some d) o).0 ≡ ok tt
  pub turn_shown : (d : TurnDoneData) (o : p.Outside) → (p.show_turn (some d) o).0 ≡ ok tt

module _ (p : Ports) (shows : Shows p) where
  handle_message_lem :
      (m : ServerMessage) (s : App p)
      → is_complete m ≡ true
      → (b : Bool) × ((handle_message p m s).0 ≡ ok b)
  unfolding handle_message is_complete apply_change offer_sync offer_ready
  handle_message_lem m s h = elim (Bool-cases (bytes_eq m.typ MessageType.sync_request)) [
    | inl q ↦ rw q (elim (Option-cases s.sync_req) [
      | inl r ↦ (true, rw r refl)
      | inr (a, r) ↦ (false, rw r refl)
    ])
    | inr q₀ ↦ rw q₀ (elim (Bool-cases (bytes_eq m.typ MessageType.session_ready)) [
      | inl q ↦ elim (Option-cases m.session_ready) [
        | inl r ↦ cc (rw (q, r) at h)
        | inr (d, r) ↦
            rw (q, r)
              (elim (Option-cases s.ready) [
                | inl r ↦ (true, rw r refl)
                | inr (a, r) ↦ (false, rw r refl)
              ])
      ]
      | inr q₁ ↦ rw q₁ (elim (Bool-cases (bytes_eq m.typ MessageType.stream_event)) [
        | inl q ↦ elim (Option-cases m.stream_event) [
          | inl r ↦ cc (rw (q₁, q₀, q, r) at h)
          | inr (d, r) ↦ rw (q, r, shows.event_shown d s.outside) (true, refl)
        ]
        | inr q₂ ↦ rw q₂ (elim (Bool-cases (bytes_eq m.typ MessageType.file_change)) [
          | inl q ↦ elim (Option-cases m.file_change) [
            | inl r ↦ cc (rw (q₁, q₀, q₂, q, r) at h)
            | inr (d, r) ↦
                rw (q, r)
                  (elim (Result-cases
                    (p.apply (record { op = d.op; path = d.path; hash = d.hash; mode = d.mode })
                      m.content s.outside).0) [
                        | inl (e, t) ↦ rw t (true, refl)
                        | inr (u, t) ↦ rw t (true, refl)
                      ])
          ]
          | inr q₃ ↦ rw q₃ (elim (Bool-cases (bytes_eq m.typ MessageType.turn_done)) [
            | inl q ↦ elim (Option-cases m.turn_done) [
              | inl r ↦ cc (rw (q₁, q₀, q₂, q₃, q, r) at h)
              | inr (d, r) ↦ rw (q, r, shows.turn_shown d s.outside) (true, refl)
            ]
            | inr q₄ ↦ rw q₄ (elim (Bool-cases (bytes_eq m.typ MessageType.error)) [
              | inl q ↦ elim (Option-cases m.error) [
                | inl r ↦ cc (rw (q₁, q₀, q₂, q₃, q₄, q, r) at h)
                | inr (d, r) ↦ rw (q, r) (true, refl)
              ]
              | inr q ↦ rw q (true, refl)
            ])
          ])
        ])
      ])
    ])
  ]

  -- In a message that ReadServerMessage returns the pointer that belongs to its type is set, and
  -- handling it follows no nil pointer, neither in the reader nor in a renderer that fails on
  -- nothing else.
  pub inbound_handled :
      (json : Json) (f : Framed) (m : ServerMessage) (s : App p)
      → read_server_message json (ok f) ≡ ok m
      → (is_complete m ≡ true) × (b : Bool) × ((handle_message p m s).0 ≡ ok b)
  unfolding read_server_message
  inbound_handled json f m s h =
      let complete = server_message-is_complete json f m h in
      let (b, run) = handle_message_lem m s complete in (complete, b, run)
