-- ===== src/Ws/Sent.antt =====
-- The messages with content, as internal/adapters/transport/ws/client.go and notifier.go send them.
use claude_share.Base.{
  ℕ, ◌+◌, ◌%◌, ◌^◌, ◌≡◌, ◌≢◌, refl, fun_ext, ap, false, Bytes, bytes_eq, [], ◌∷◌, map, ◌==◌, length,
  ok, arith,
}
use claude_share.Base.Exec.{Exec, ◌>>=◌}
use claude_share.Domain.{FileChange, change_delete}
use claude_share.Protocol.{Json, Coder, Envelope, FileChangeData, RoundTrips, encode_envelope}
use claude_share.Protocol.MessageType
use claude_share.Ws.Conn.{
  SecureChannel, Socket, Conn, marshal_data, new_stream_id, send_envelope, send_content,
  write_record, stream_id_of,
}
use claude_share.Ws.Conn.Chunks.{encode, content_chunks}
use claude_share.Ws.Conn.Send.{write_all, send_content-eq-write_all}
use claude_share.Ws.Notifier.{send_data, file_change, change_stream}
use claude_share.Ws.Client.{upload_blob}

-- The id that the next stream has.
abbrev pub next_id : ℕ → ℕ
next_id n = (n + 1) % 2 ^ 64

abbrev pub message : Bytes → Bytes → Envelope
message typ b = record { typ = typ; id = []; payload = b }

marshal_data_lem :
    {A : Type 0} (coder : Coder A) (typ b : Bytes) (a : A)
    → coder.marshal a ≡ ok b
    → marshal_data coder typ a ≡ ok (message typ b)
unfolding marshal_data
marshal_data_lem coder typ b a h = rw (h, marshal_data) refl

send_data_lem :
    {chan : SecureChannel} {sock : Socket} {A : Type 0} (json : Json) (coder : Coder A)
    (typ b rec : Bytes) (a : A) (c : Conn chan sock)
    → coder.marshal a ≡ ok b
    → encode_envelope json (message typ b) ≡ ok rec
    → send_data json coder typ a c ≡ write_record rec c
unfolding send_data send_envelope
send_data_lem json coder typ b rec a c hm he = rw (marshal_data_lem coder typ b a hm, he) refl

module _ {chan : SecureChannel} {sock : Socket} (json : Json) (c : Conn chan sock) where
  abbrev sid : ℕ
  sid = next_id c.out_seq

  abbrev from_next : Conn chan sock
  from_next = record c { out_seq = next_id c.out_seq }

  then_content :
      (rec content : Bytes)
      → (write_record rec >>= λ _. send_content (next_id c.out_seq) content)
          (record c { out_seq = next_id c.out_seq })
        ≡ write_all
            (rec ∷ map encode (content_chunks (next_id c.out_seq) content))
            (record c { out_seq = next_id c.out_seq })
  unfolding write_all
  then_content rec content =
      ap
        (λ (f : Exec (Conn chan sock) Unit).
          (write_record rec >>= λ _. f) (record c { out_seq = next_id c.out_seq }))
        (fun_ext (λ d. send_content-eq-write_all (next_id c.out_seq) content d))

  -- UploadBlob takes the next stream id and writes the envelope, which announces that stream, and
  -- then the records of the content's chunks.
  pub upload_blob-eq-write_all :
      (hash content b rec : Bytes)
      → json.blob.marshal
          (record { stream_id = next_id c.out_seq; hash = hash; size = length content })
        ≡ ok b
      → RoundTrips json.blob
          (record { stream_id = next_id c.out_seq; hash = hash; size = length content })
      → encode_envelope json (message MessageType.blob b) ≡ ok rec
      → (upload_blob json hash content c
          ≡ write_all
              (rec ∷ map encode (content_chunks (next_id c.out_seq) content))
              (record c { out_seq = next_id c.out_seq }))
        × (stream_id_of json (message MessageType.blob b) ≡ ok (next_id c.out_seq))
  unfolding upload_blob new_stream_id stream_id_of write_all bytes_eq
  upload_blob-eq-write_all hash content b rec hm hr he = (
    rw
        (send_data_lem json json.blob MessageType.blob b rec
          (record { stream_id = next_id c.out_seq; hash = hash; size = length content })
          (record c { out_seq = next_id c.out_seq }) hm he)
        (then_content rec content),
    rw (hr b hm) refl,
  )

  abbrev pub change_data : FileChange → Bytes → FileChangeData
  change_data ch content = record {
    op = ch.op;
    path = ch.path;
    mode = ch.mode;
    hash = ch.hash;
    stream_id = next_id c.out_seq;
    size = length content;
  }

  -- FileChange does the same for a file that is created or modified.
  pub file_change-eq-write_all :
      (ch : FileChange) (content b rec : Bytes)
      → bytes_eq ch.op change_delete ≡ false
      → next_id c.out_seq ≢ 0
      → json.file_change.marshal (change_data ch content) ≡ ok b
      → RoundTrips json.file_change (change_data ch content)
      → encode_envelope json (message MessageType.file_change b) ≡ ok rec
      → (file_change json ch content c
          ≡ write_all
              (rec ∷ map encode (content_chunks (next_id c.out_seq) content))
              (record c { out_seq = next_id c.out_seq }))
        × (stream_id_of json (message MessageType.file_change b) ≡ ok (next_id c.out_seq))
  unfolding file_change change_stream new_stream_id stream_id_of write_all bytes_eq
  file_change-eq-write_all ch content b rec op nz hm hr he =
      let id_lem : (next_id c.out_seq == 0) ≡ false = ground (arith, nz) in
      (
        rw
            (
              op,
              send_data_lem json json.file_change MessageType.file_change b rec
                  (change_data ch content) (record c { out_seq = next_id c.out_seq }) hm he,
              id_lem,
            )
            (then_content rec content),
        rw (hr b hm) refl,
      )
