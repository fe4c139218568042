-- ===== src/Ws/Conn.antt =====
-- internal/adapters/transport/ws/codec.go: record framing over the secure channel, and the
-- assembly of content streams. The WebSocket connection and the cipher are parameters.
pub mod Chunks
pub mod Send
pub mod Receive
pub mod Isolation
pub mod RoundTrip
pub mod Linked
use claude_share.Base.{
  ℕ, zero, suc, ◌+◌, ◌%◌, ◌^◌, Bool, true, false, Bytes, bytes_eq, Option, none, some, List, [],
  ◌∷◌, ◌++◌, ◌==◌, ltb, if◌then◌else◌, length, take, drop, Result, ok, err, foreign, decrypt,
  unknown_stream,
}
use claude_share.Base.Dict
use claude_share.Base.Dict.{Dict, nat_eq}
use claude_share.Base.Exec.{Exec, pure, fail, lift, ◌>>=◌, ◌>>◌}
use claude_share.Protocol.{
  Envelope, Json, Coder, BlobData, FileChangeData, Chunk, Record, envelope_record, chunk_record,
  chunk_payload_size, encode_envelope, encode_chunk, decode_record,
}
use claude_share.Protocol.MessageType

-- ports.SecureChannel. The state holds the nonces of both directions.
pub record SecureChannel : Type 1 where
  pub State : Type 0
  pub seal : Bytes → Exec State Bytes
  pub unseal : Bytes → Exec State Bytes

-- The WebSocket connection: one binary frame is written or read.
pub record Socket : Type 1 where
  pub State : Type 0
  pub write : Bytes → Exec State Unit
  pub read : Exec State Bytes

-- A content stream that is being received.
pub record Asm : Type 0 where
  pub env : Envelope
  pub buf : Bytes

-- A whole message that was received.
pub record Framed : Type 0 where
  pub env : Envelope
  pub content : Bytes
  pub has_content : Bool

-- The stream that an envelope announces, 0 for none.
unfoldable pub stream_id_of : Json → Envelope → Result ℕ
stream_id_of json env =
    if bytes_eq env.typ MessageType.blob
    then elim (json.blob.unmarshal env.payload) [ ok d ↦ ok d.stream_id | err e ↦ err e ]
    else if bytes_eq env.typ MessageType.file_change
    then elim (json.file_change.unmarshal env.payload) [ ok d ↦ ok d.stream_id | err e ↦ err e ]
    else ok 0

-- `marshalData`
unfoldable pub marshal_data : {A : Type 0} → Coder A → Bytes → A → Result Envelope
marshal_data coder typ a = elim (coder.marshal a) [
  | ok b ↦ ok (record { typ = typ; id = []; payload = b })
  | err e ↦ err e
]

-- What the loop of `ReadMessage` does with one decoded record, on the map of pending streams:
-- it returns a message, or `none` to read on.
abbrev pub Pending : Type 0
Pending = Dict ℕ Asm

announce : Envelope → ℕ → Exec Pending (Option Framed)
announce env sid pending =
    if sid == 0
    then (ok (some (record { env = env; content = []; has_content = false })), pending)
    else (ok none, Dict.put sid (record { env = env; buf = [] }) pending)

extend : Chunk → Option Asm → Exec Pending (Option Framed)
extend c none pending = (err unknown_stream, pending)
extend c (some a) pending =
    let buf = a.buf ++ c.payload in
    if c.final
    then (
      ok (some (record { env = a.env; content = buf; has_content = true })),
      Dict.delete c.stream_id pending,
    )
    else (ok none, Dict.put c.stream_id (record a { buf = buf }) pending)

unfoldable pub on_record : Json → Record → Exec Pending (Option Framed)
unfolding announce extend
on_record json (envelope_record env) = do sid ← lift (stream_id_of json env); announce env sid
on_record json (chunk_record c) = λ pending. extend c (Dict.get c.stream_id pending) pending

module _ (chan : SecureChannel) (sock : Socket) where
  pub record Conn : Type 0 where
    pub channel : chan.State
    pub socket : sock.State
    pub out_seq : ℕ
    pub pending : Pending

module _ {chan : SecureChannel} {sock : Socket} where
  -- `newConn`. The limit that it sets on the size of a frame is the library's.
  unfoldable pub new_conn : chan.State → sock.State → Conn chan sock
  new_conn ch wsc = record { channel = ch; socket = wsc; out_seq = 0; pending = [] }

  on_channel : {A : Type 0} → Exec chan.State A → Exec (Conn chan sock) A
  on_channel m c = let (r, s) = m c.channel in (r, record c { channel = s })

  on_socket : {A : Type 0} → Exec sock.State A → Exec (Conn chan sock) A
  on_socket m c = let (r, s) = m c.socket in (r, record c { socket = s })

  on_pending : {A : Type 0} → Exec Pending A → Exec (Conn chan sock) A
  on_pending m c = let (r, s) = m c.pending in (r, record c { pending = s })

  -- A 64-bit counter.
  unfoldable pub new_stream_id : Exec (Conn chan sock) ℕ
  new_stream_id c = let n = (c.out_seq + 1) % 2 ^ 64 in (ok n, record c { out_seq = n })

  unfoldable pub write_record : Bytes → Exec (Conn chan sock) Unit
  unfolding on_channel on_socket
  write_record rec = do sealed ← on_channel (chan.seal rec); on_socket (sock.write sealed)

  unfoldable pub send_envelope : Json → Envelope → Exec (Conn chan sock) Unit
  unfolding encode_envelope write_record
  send_envelope json env = do rec ← lift (encode_envelope json env); write_record rec

  -- The loop of `SendContent`, for chunks of at most `size` bytes. The fuel bounds its rounds.
  pub send_loop : ℕ → ℕ → ℕ → ℕ → Bytes → Exec (Conn chan sock) Unit
  send_loop size zero sid seq content = pure tt
  send_loop size (suc fuel) sid seq content =
      let end = if ltb size (length content) then size else length content in
      let final = end == length content in
      let rest = send_loop size fuel sid ((seq + 1) % 2 ^ 32) (drop end content) in
      do
        write_record (encode_chunk sid seq final (take end content))
        if final then pure tt else rest

  unfoldable pub send_content : ℕ → Bytes → Exec (Conn chan sock) Unit
  unfolding send_loop write_record
  send_content sid content = send_loop chunk_payload_size (suc (length content)) sid 0 content

  -- One round of the loop of `ReadMessage`.
  unfoldable pub receive : Json → Exec (Conn chan sock) (Option Framed)
  unfolding on_socket on_channel on_pending
  receive json = do
    frame ← on_socket sock.read
    plain ← λ c.
        let (r, c') = on_channel (chan.unseal frame) c in
        (elim r [ ok p ↦ ok p | err e ↦ err (decrypt e) ], c')
    rec ← lift (decode_record json plain)
    on_pending (on_record json rec)

  -- `ReadMessage`, for at most as many frames as the fuel.
  unfoldable pub read_message : ℕ → Json → Exec (Conn chan sock) Framed
  unfolding receive
  read_message zero json = fail (foreign [])
  read_message (suc fuel) json =
      let rest = read_message fuel json in
      do done ← receive json; elim done [ some m ↦ pure m | none ↦ rest ]
