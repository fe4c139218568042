-- ===== src/Ws/Client.antt =====
-- internal/adapters/transport/ws/client.go: what the client sends.
use claude_share.Base.{Bytes, List, [], length}
use claude_share.Base.Exec.{Exec, ◌>>=◌, ◌>>◌}
use claude_share.Protocol.{Json, FileEntryDto, Envelope}
use claude_share.Protocol.MessageType
use claude_share.Ws.Conn.{SecureChannel, Socket, Conn, new_stream_id, send_envelope, send_content}
use claude_share.Ws.Notifier.{send_data}

-- An envelope without data.
unfoldable pub plain : Bytes → Envelope
plain typ = record { typ = typ; id = []; payload = [] }

module _ {chan : SecureChannel} {sock : Socket} (json : Json) where
  unfoldable pub session_start : Bytes → List FileEntryDto → Exec (Conn chan sock) Unit
  session_start project_name manifest =
      send_data json json.session_start MessageType.session_start
        (record { project_name = project_name; manifest = manifest })

  unfoldable pub upload_blob : Bytes → Bytes → Exec (Conn chan sock) Unit
  upload_blob hash content = do
    sid ← new_stream_id
    send_data json json.blob MessageType.blob
        (record { stream_id = sid; hash = hash; size = length content })
    send_content sid content

  unfoldable pub sync_done : Exec (Conn chan sock) Unit
  sync_done = send_envelope json (plain MessageType.sync_done)

  unfoldable pub prompt : Bytes → Exec (Conn chan sock) Unit
  prompt text = send_data json json.prompt MessageType.prompt (record { text = text })

  unfoldable pub interrupt : Exec (Conn chan sock) Unit
  interrupt = send_envelope json (plain MessageType.interrupt)

  unfoldable pub session_end : Exec (Conn chan sock) Unit
  session_end = send_envelope json (plain MessageType.session_end)
