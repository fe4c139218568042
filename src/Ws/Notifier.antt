-- ===== src/Ws/Notifier.antt =====
-- internal/adapters/transport/ws/notifier.go: what the server sends.
use claude_share.Base.{ℕ, Bytes, bytes_eq, List, ◌==◌, if◌then◌else◌, length}
use claude_share.Base.Exec.{Exec, pure, lift, ◌>>=◌, ◌>>◌}
use claude_share.Domain.{AgentEvent, FileChange, TurnResult, change_delete}
use claude_share.Protocol.{Json, Coder}
use claude_share.Protocol.MessageType
use claude_share.Ws.Conn.{
  SecureChannel, Socket, Conn, marshal_data, new_stream_id, send_envelope, send_content,
}

module _ {chan : SecureChannel} {sock : Socket} (json : Json) where
  -- `marshalData` and `SendEnvelope`.
  unfoldable pub send_data : {A : Type 0} → Coder A → Bytes → A → Exec (Conn chan sock) Unit
  unfolding marshal_data
  send_data coder typ a = do env ← lift (marshal_data coder typ a); send_envelope json env

  unfoldable pub session_ready : Bytes → Exec (Conn chan sock) Unit
  session_ready session_id =
      send_data json.session_ready MessageType.session_ready (record { session_id = session_id })

  unfoldable pub sync_request : List Bytes → Exec (Conn chan sock) Unit
  sync_request missing =
      send_data json.sync_request MessageType.sync_request (record { missing = missing })

  unfoldable pub stream_event : AgentEvent → Exec (Conn chan sock) Unit
  stream_event ev =
      send_data json.stream_event MessageType.stream_event
        (record { kind = ev.kind; text = ev.text; raw = ev.raw })

  -- The stream that the content goes on: a new one, or none for a deletion.
  unfoldable pub change_stream : FileChange → Exec (Conn chan sock) ℕ
  change_stream ch = if bytes_eq ch.op change_delete then pure 0 else new_stream_id

  unfoldable pub file_change : FileChange → Bytes → Exec (Conn chan sock) Unit
  unfolding change_stream
  file_change ch content = do
    sid ← change_stream ch
    send_data json.file_change MessageType.file_change (record {
      op = ch.op;
      path = ch.path;
      mode = ch.mode;
      hash = ch.hash;
      stream_id = sid;
      size = if bytes_eq ch.op change_delete then 0 else length content;
    })
    if sid == 0 then pure tt else send_content sid content

  unfoldable pub turn_done : TurnResult → Exec (Conn chan sock) Unit
  turn_done res = send_data json.turn_done MessageType.turn_done (record {
    is_error = res.is_error;
    cost_usd = res.cost_usd;
    text = res.text;
    num_turns = res.num_turns;
  })

  unfoldable pub error : Bytes → Exec (Conn chan sock) Unit
  error message = send_data json.error MessageType.error (record { message = message })
