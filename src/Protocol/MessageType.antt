-- ===== src/Protocol/MessageType.antt =====
-- The values of `Envelope.Type` in internal/protocol/protocol.go.
use claude_share.Base.{Bytes, codes}

abbrev pub session_start : Bytes
session_start = codes "session.start"

abbrev pub blob : Bytes
blob = codes "blob"

abbrev pub sync_done : Bytes
sync_done = codes "sync.done"

abbrev pub prompt : Bytes
prompt = codes "prompt"

abbrev pub interrupt : Bytes
interrupt = codes "interrupt"

abbrev pub session_end : Bytes
session_end = codes "session.end"

abbrev pub session_ready : Bytes
session_ready = codes "session.ready"

abbrev pub sync_request : Bytes
sync_request = codes "sync.request"

abbrev pub stream_event : Bytes
stream_event = codes "stream.event"

abbrev pub file_change : Bytes
file_change = codes "file.change"

abbrev pub turn_done : Bytes
turn_done = codes "turn.done"

abbrev pub error : Bytes
error = codes "error"
