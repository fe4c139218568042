-- ===== src/Ws/Conn/RoundTrip.antt =====
-- A message that was sent is read back: the records of an envelope and of its content stream, as
-- `SendEnvelope` and `SendContent` of internal/adapters/transport/ws/codec.go make them, and
-- `ReadMessage` at the other end.
use claude_share.Base.{
  ℕ, zero, suc, ◌^◌, ◌≤◌, ◌<◌, ◌≡◌, ◌≢◌, refl, ap, ◌∙◌, true, Bytes, Option, none, some, List, [],
  ◌∷◌, ◌++◌, map, arith, Result, ok, append_assoc, append-nil, All, length,
}
use claude_share.Base.Dict
use claude_share.Base.Dict.{Dict, nat_eq, get-put_self, delete-put_self}
use claude_share.Protocol.{
  Envelope, Json, RoundTrips, Chunk, Record, envelope_record, chunk_record, decode_record,
  encode_envelope, chunk_payload_size,
}
use claude_share.Protocol.Framing.{decode-encode_chunk, decode_encoded}
use claude_share.Ws.Conn.{
  SecureChannel, Socket, Conn, Asm, Framed, Pending, on_record, stream_id_of, receive, read_message,
  on_pending,
}
use claude_share.Ws.Conn.Chunks.{
  payloads, IsEnded, IsChunkOf, encode, content_chunks, content_chunks_sound,
}
use claude_share.Ws.Conn.Receive.{stream_message, final_chunk, more_chunk}

decode-encode :
    (json : Json) (k : Chunk) (size sid : ℕ)
    → IsChunkOf size sid k
    → sid < 2 ^ 64
    → decode_record json (encode k) ≡ ok (chunk_record k)
decode-encode json k size sid h small =
    decode-encode_chunk json k.stream_id k.seq k.final k.payload (rw h.0 small) h.1

announced :
    (json : Json) (env : Envelope) (sid : ℕ) (p : Pending)
    → stream_id_of json env ≡ ok sid
    → sid ≢ 0
    → on_record json (envelope_record env) p
      ≡ (ok none, Dict.put sid (record { env = env; buf = [] }) p)
unfolding on_record
announced json env sid p hs nz = rw hs (ground arith)

module _ (chan : SecureChannel) (sock : Socket) where
  -- The frames that wait at the receiver decrypt to the plain texts, one after the other.
  pub data Yields : chan.State → sock.State → List Bytes → chan.State → sock.State → Type 0 where
    nothing : {ch : chan.State} {so : sock.State} → Yields ch so [] ch so
    frame :
        {ch ch' ch'' : chan.State} {so so' so'' : sock.State} {plain : Bytes} {rest : List Bytes}
        (sealed : Bytes)
        → sock.read so ≡ (ok sealed, so')
        → chan.unseal sealed ch ≡ (ok plain, ch')
        → Yields ch' so' rest ch'' so''
        → Yields ch so (plain ∷ rest) ch'' so''

module _ {chan : SecureChannel} {sock : Socket} where
  Yields-cons :
      {ch ch'' : chan.State} {so so'' : sock.State} {plain : Bytes} {rest : List Bytes}
      → Yields chan sock ch so (plain ∷ rest) ch'' so''
      → (sealed : Bytes) × (ch' : chan.State) × (so' : sock.State) × (sock.read so
          ≡ (ok sealed, so'))
        × (chan.unseal sealed ch ≡ (ok plain, ch'))
        × Yields chan sock ch' so' rest ch'' so''
  Yields-cons (frame {ch' = ch'} {so' = so'} sealed r u y) = (sealed, ch', so', r, u, y)

  Yields-nil :
      {ch ch' : chan.State} {so so' : sock.State}
      → Yields chan sock ch so [] ch' so'
      → (ch ≡ ch') × (so ≡ so')
  Yields-nil nothing = (refl, refl)

  abbrev pub conn : chan.State → sock.State → ℕ → Pending → Conn chan sock
  conn ch so n p = record { channel = ch; socket = so; out_seq = n; pending = p }

module _ {chan : SecureChannel} {sock : Socket} (json : Json) where
  -- One round of the loop, where a record arrives.
  receive_frame :
      (c : Conn chan sock) (sealed plain : Bytes) (ch : chan.State) (so : sock.State) (r : Record)
      → sock.read c.socket ≡ (ok sealed, so)
      → chan.unseal sealed c.channel ≡ (ok plain, ch)
      → decode_record json plain ≡ ok r
      → receive json c ≡ on_pending (on_record json r) (record c { channel = ch; socket = so })
  unfolding receive
  receive_frame c sealed plain ch so r hs hc hr = rw (hs, hc, hr)

  read_more :
      (fuel : ℕ) (c c' : Conn chan sock)
      → receive json c ≡ (ok none, c')
      → read_message (suc fuel) json c ≡ read_message fuel json c'
  unfolding read_message
  read_more fuel c c' h = rw h

  read_done :
      (fuel : ℕ) (c c' : Conn chan sock) (m : Framed)
      → receive json c ≡ (ok (some m), c')
      → read_message (suc fuel) json c ≡ (ok m, c')
  unfolding read_message
  read_done fuel c c' m h = rw h

  read_chunks :
      (cs : List Chunk) (size sid fuel : ℕ) (a : Asm) (ch ch' : chan.State) (so so' : sock.State)
      (n : ℕ) (p : Pending)
      → sid < 2 ^ 64
      → IsEnded cs
      → All (IsChunkOf size sid) cs
      → Dict.get sid p ≡ some a
      → Yields chan sock ch so (map encode cs) ch' so'
      → length cs ≤ fuel
      → read_message fuel json (conn {chan = chan} {sock = sock} ch so n p)
        ≡ (ok (stream_message a (payloads cs)), conn ch' so' n (Dict.delete sid p))
  read_chunks [] size sid fuel a ch ch' so so' n p small e all h y f = absurd e
  read_chunks (k ∷ ks) size sid zero a ch ch' so so' n p small e all h y f = absurd (omega arith)
  read_chunks (k ∷ []) size sid (suc fuel) a ch ch' so so' n p small e (hk, _) h y f =
      let (sealed, ch1, so1, hs, hc, rest) = Yields-cons y in
      let (ec, es) = Yields-nil rest in
      rw (← ec, ← es, append-nil)
        (read_done fuel (conn {chan = chan} {sock = sock} ch so n p) _ _ (
          receive_frame (conn {chan = chan} {sock = sock} ch so n p) sealed (encode k) ch1 so1
            (chunk_record k) hs hc (decode-encode json k size sid hk small)
          ∙ (unfold on_pending in
              ap
                (λ (q : Result (Option Framed) × Pending).
                  (q.0, conn {chan = chan} {sock = sock} ch1 so1 n q.1))
                (final_chunk json sid k p a hk.0 h e))))
  read_chunks (k ∷ l ∷ ks) size sid (suc fuel) a ch ch' so so' n p small e (hk, hks) h y f =
      let (sealed, ch1, so1, hs, hc, rest) = Yields-cons y in
      let b : Asm = record a { buf = a.buf ++ k.payload } in
      let rr =
        read_chunks (l ∷ ks) size sid fuel b ch1 ch' so1 so' n (Dict.put sid b p) small e.1 hks
          (get-put_self sid b p) rest (omega arith) in
      read_more fuel (conn {chan = chan} {sock = sock} ch so n p)
        (conn {chan = chan} {sock = sock} ch1 so1 n (Dict.put sid b p))
        (receive_frame (conn {chan = chan} {sock = sock} ch so n p) sealed (encode k) ch1 so1
            (chunk_record k) hs hc (decode-encode json k size sid hk small)
          ∙ (unfold on_pending in
              ap
                (λ (q : Result (Option Framed) × Pending).
                  (q.0, conn {chan = chan} {sock = sock} ch1 so1 n q.1))
                (more_chunk json sid k p a hk.0 h e.0)))
      ∙ (rr ∙ rw (delete-put_self sid b p, append_assoc a.buf k.payload (payloads (l ∷ ks))))

  -- What `SendEnvelope` and `SendContent` write for one message is read back as that message: for
  -- an envelope that is marshalled and announces the stream, and for every content, `ReadMessage`
  -- over the frames returns the envelope with the content, given a round for each frame; it leaves
  -- no trace of the stream.
  pub read_message-send :
      (env : Envelope) (rec content : Bytes) (sid fuel : ℕ) (ch ch' : chan.State)
      (so so' : sock.State) (n : ℕ) (p : Pending)
      → encode_envelope json env ≡ ok rec
      → RoundTrips json.envelope env
      → stream_id_of json env ≡ ok sid
      → sid ≢ 0
      → sid < 2 ^ 64
      → Yields chan sock ch so (rec ∷ map encode (content_chunks sid content)) ch' so'
      → length (content_chunks sid content) < fuel
      → read_message fuel json (conn {chan = chan} {sock = sock} ch so n p) ≡ (
        ok (record { env = env; content = content; has_content = true }),
        conn ch' so' n (Dict.delete sid p),
      )
  read_message-send env rec content sid zero ch ch' so so' n p he hr hs nz small y f =
      absurd (omega arith)
  read_message-send env rec content sid (suc fuel) ch ch' so so' n p he hr hs nz small y f =
      let (sealed, ch1, so1, hrd, hc, rest) = Yields-cons y in
      let a : Asm = record { env = env; buf = [] } in
      let (whole, ended, fits) = content_chunks_sound sid content in
      let rr =
        read_chunks (content_chunks sid content) chunk_payload_size sid fuel a ch1 ch' so1 so' n
          (Dict.put sid a p) small ended fits (get-put_self sid a p) rest (omega arith) in
      read_more fuel (conn {chan = chan} {sock = sock} ch so n p)
        (conn {chan = chan} {sock = sock} ch1 so1 n (Dict.put sid a p))
        (receive_frame (conn {chan = chan} {sock = sock} ch so n p) sealed rec ch1 so1
            (envelope_record env) hrd hc (decode_encoded json env rec he hr)
          ∙ (unfold on_pending in
              ap
                (λ (q : Result (Option Framed) × Pending).
                  (q.0, conn {chan = chan} {sock = sock} ch1 so1 n q.1))
                (announced json env sid p hs nz)))
      ∙ (rr ∙ rw (delete-put_self sid a p, whole))
