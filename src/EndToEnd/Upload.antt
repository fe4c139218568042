-- ===== src/EndToEnd/Upload.antt =====
-- One blob from the client to the server: UploadBlob of internal/adapters/transport/ws/client.go,
-- ReadMessage of internal/adapters/transport/ws/codec.go and dispatch of
-- internal/adapters/transport/ws/server.go, over linked channels of
-- internal/adapters/crypto/noise/noise.go.
pub mod Dispatched
use claude_share.Base.{
  ℕ, zero, suc, ◌+◌, ◌^◌, ◌<◌, ◌≡◌, ◌≢◌, inl, inr, refl, ap, sym, ◌∙◌, Bool, true, false, Bytes,
  bytes_eq, List, [], ◌∷◌, ◌++◌, map, append_assoc, if◌then◌else◌, length, arith, Error, Result,
  Result-cases, ok, err, All,
}
use claude_share.Base.Dict
use claude_share.Base.Dict.{Dict, nat_eq}
use claude_share.Base.Exec
use claude_share.Base.Exec.{Exec, bind-eq-ok, bind-run, ◌>>=◌, ◌>>◌}
use claude_share.Protocol.{
  Json, Coder, Envelope, BlobData, RoundTrips, encode_envelope, unmarshal_data,
}
use claude_share.Protocol.MessageType
use claude_share.Secrets.Noise.{NoiseLib, Channel}
use claude_share.Ws.Conn.{
  SecureChannel, Socket, Conn, Framed, Pending, marshal_data, new_stream_id, send_envelope,
  send_content, write_record, stream_id_of, read_message,
}
use claude_share.Ws.Conn.Chunks.{encode, content_chunks}
use claude_share.Ws.Conn.Send.{write_all}
use claude_share.Ws.Conn.RoundTrip.{conn, read_message-send}
use claude_share.Ws.Conn.Linked.{
  noise_channel, Writes, Reads, IsCipherLink, IsReceived, write_all-IsReceived, Writes-append,
  Reads-append, write_all-out_seq,
}
use claude_share.Ws.Notifier.{send_data}
use claude_share.Ws.Client.{upload_blob}
use claude_share.Ws.Sent.{next_id, message, upload_blob-eq-write_all}
use claude_share.Ws.Server.{Driven, dispatch, dispatch_message, reported}

module _ (json : Json) (hash content : Bytes) (n : ℕ) where
  abbrev blob_data : BlobData
  blob_data = record { stream_id = next_id n; hash = hash; size = length content }

  -- What is sent for a blob: its data, marshalled, and the record of the envelope.
  pub record Marshalled : Type 0 where
    pub payload : Bytes
    pub rec : Bytes
    pub marshals : json.blob.marshal blob_data ≡ ok payload
    pub encodes : encode_envelope json (message MessageType.blob payload) ≡ ok rec

marshal_data-eq-ok :
    {A : Type 0} (coder : Coder A) (typ : Bytes) (a : A) (env : Envelope)
    → marshal_data coder typ a ≡ ok env
    → (b : Bytes) × (coder.marshal a ≡ ok b) × (env ≡ message typ b)
unfolding marshal_data
marshal_data-eq-ok coder typ a env h = elim (Result-cases (coder.marshal a)) [
  | inl (e, q) ↦ cc (rw (q, marshal_data) at h)
  | inr (b, q) ↦ (b, q, cc (rw (q, marshal_data) at h))
]

-- An upload that succeeded has marshalled its data and its envelope.
upload_blob-Marshalled :
    {chan : SecureChannel} {sock : Socket} (json : Json) (hash content : Bytes)
    (c c' : Conn chan sock)
    → upload_blob json hash content c ≡ (ok tt, c')
    → Marshalled json hash content c.out_seq
unfolding upload_blob new_stream_id send_data send_envelope
upload_blob-Marshalled json hash content c c' h =
    let sid = next_id c.out_seq in
    let c₁ = record c { out_seq = sid } in
    let d = blob_data json hash content c.out_seq in
    let (_, sent, _) =
      bind-eq-ok (send_data json json.blob MessageType.blob d) (λ _. send_content sid content) c₁ c'
        tt h in
    let (env, q, written) =
      bind-eq-ok (Exec.lift (marshal_data json.blob MessageType.blob d)) (send_envelope json) c₁
        (send_data json json.blob MessageType.blob d c₁).1 tt
        (λ i. (sent i, (send_data json json.blob MessageType.blob d c₁).1)) in
    let (b, m, is) = marshal_data-eq-ok json.blob MessageType.blob d env q in
    let (rec, e, _) =
      bind-eq-ok (Exec.lift (encode_envelope json env)) write_record c₁ _ tt written in
    record { payload = b; rec = rec; marshals = m; encodes = rw (← is) e }

-- The message that the server reads for a blob.
abbrev pub blob_message : Bytes → Bytes → Framed
blob_message payload content = record {
  env = message MessageType.blob payload;
  content = content;
  has_content = true;
}

-- encoding/json reads back what it wrote for the blob.
pub record IsReadBack (json : Json) (hash content : Bytes) (n : ℕ) : Type 0 where
  pub blob_back : RoundTrips json.blob (blob_data json hash content n)
  pub not_empty : (b : Bytes) → json.blob.marshal (blob_data json hash content n) ≡ ok b → b ≢ []
  pub envelope_back :
      (b : Bytes)
      → json.blob.marshal (blob_data json hash content n) ≡ ok b
      → RoundTrips json.envelope (message MessageType.blob b)

module _ (lib : NoiseLib) (Linked : lib.Cipher → lib.Cipher → Type 0)
    (links : IsCipherLink lib Linked) (sock sock' : Socket) (json : Json) where
  abbrev pub Sender : Type 0
  Sender = Conn (noise_channel lib) sock

  abbrev pub Receiver : Type 0
  Receiver = Conn (noise_channel lib) sock'

  abbrev pub receiver : Channel lib → sock'.State → ℕ → Pending → Receiver
  receiver ch so n p = conn {chan = noise_channel lib} {sock = sock'} ch so n p

  -- Over the frames ReadMessage returns the message, given a round for each of them.
  abbrev pub IsMessage : List Bytes → Framed → Channel lib → Channel lib → Type 0
  IsMessage frames m ch ch' =
      (so so' : sock'.State) (n : ℕ) (p : Pending)
      → Reads sock' so frames so'
      → (fuel : ℕ) × (p' : Pending) × (read_message fuel json (receiver ch so n p)
          ≡ (ok m, receiver ch' so' n p'))

  pub upload_one :
      (hash content : Bytes) (c c' : Sender) (ch : Channel lib)
      → IsReadBack json hash content c.out_seq
      → next_id c.out_seq ≢ 0
      → upload_blob json hash content c ≡ (ok tt, c')
      → Linked c.channel.send ch.recv
      → (b : Bytes) × (frames : List Bytes) × (ch' : Channel lib) × Writes sock c.socket frames
          c'.socket
        × (json.blob.unmarshal b ≡ ok (blob_data json hash content c.out_seq))
        × (b ≢ [])
        × Linked c'.channel.send ch'.recv
        × (c'.out_seq ≡ next_id c.out_seq)
        × IsMessage frames (blob_message b content) ch ch'
  upload_one hash content c c' ch back nz h l =
      let m = upload_blob-Marshalled json hash content c c' h in
      let sid = next_id c.out_seq in
      let (is_written, announces) =
        upload_blob-eq-write_all json c hash content m.payload m.rec m.marshals back.blob_back
          m.encodes in
      let recs = m.rec ∷ map encode (content_chunks sid content) in
      let (frames, ch', writes, (linked, _, yields)) =
        write_all-IsReceived lib Linked links sock sock' recs (record c { out_seq = sid }) c' ch
          (sym is_written ∙ h) l in
      (
        m.payload,
        frames,
        ch',
        writes,
        back.blob_back m.payload m.marshals,
        back.not_empty m.payload m.marshals,
        linked,
        ap (λ (x : Result (Unit {0}) × Sender). x.1.out_seq) (sym h ∙ is_written)
            ∙ write_all-out_seq recs (record c { out_seq = sid }),
        λ so so' n p reads. (
          suc (length (content_chunks sid content)),
          Dict.delete sid p,
          read_message-send json (message MessageType.blob m.payload) m.rec content sid
              (suc (length (content_chunks sid content))) ch ch' so so' n p m.encodes
              (back.envelope_back m.payload m.marshals) announces nz (omega arith)
              (yields so so' reads) (omega arith),
        ),
      )
