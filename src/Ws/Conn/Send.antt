-- ===== src/Ws/Conn/Send.antt =====
-- `SendContent` of internal/adapters/transport/ws/codec.go writes the chunks of the content.
use claude_share.Base.{
  ℕ, zero, suc, ◌+◌, ◌%◌, ◌^◌, ◌<◌, ◌≤◌, ◌≡◌, ap, Bytes, List, [], ◌∷◌, ◌==◌, length, drop, map,
  arith, All, All-map, Bool-cases, inl, inr,
}
use claude_share.Base.Exec.{Exec, pure, ◌>>◌}
use claude_share.Protocol.{Chunk, chunk_payload_size}
use claude_share.Protocol.Framing.{length-encode_chunk}
use claude_share.Ws.Conn.{SecureChannel, Socket, Conn, write_record, send_loop, send_content}
use claude_share.Ws.Conn.Chunks.{
  chunk_end, chunks, encode, payloads, IsEnded, IsChunkOf, content_chunks, content_chunks_sound,
  drop_shrinks,
}

-- A chunk of the stream whose record, sealed with 16 bytes more, is at most the 65535 bytes of a
-- Noise message.
pub IsRecordOf : ℕ → Chunk → Type 0
IsRecordOf sid k = (k.stream_id ≡ sid) × (k.seq < 2 ^ 32) × (length (encode k) + 16 ≤ 65535)

IsRecordOf-IsChunkOf : (sid : ℕ) (k : Chunk) → IsChunkOf chunk_payload_size sid k → IsRecordOf sid k
unfolding IsRecordOf
IsRecordOf-IsChunkOf sid k (s, q, n) =
    (s, q, omega (arith, n, length-encode_chunk k.stream_id k.seq k.final k.payload))

module _ {chan : SecureChannel} {sock : Socket} where
  -- Writes the records in turn, until one of them fails.
  unfoldable pub write_all : List Bytes → Exec (Conn chan sock) Unit
  write_all [] = pure tt
  write_all (r ∷ rs) = do write_record r; write_all rs

  send_loop-eq-write_all :
      (size fuel sid seq : ℕ) (content : Bytes)
      → 0 < size
      → length content < fuel
      → send_loop {chan = chan} {sock = sock} size fuel sid seq content
        ≡ write_all (map encode (chunks size fuel sid seq content))
  unfolding send_loop chunks write_all
  send_loop-eq-write_all size zero sid seq content h f = absurd (omega arith)
  send_loop-eq-write_all size (suc fuel) sid seq content h f =
      elim (Bool-cases (chunk_end size content == length content)) [
        | inl done ↦ rw done
        | inr more ↦ rw (
          more,
          send_loop-eq-write_all size fuel sid ((seq + 1) % 2 ^ 32)
              (drop (chunk_end size content) content) h
              (omega (arith, drop_shrinks size content h more)),
        )
      ]

  -- `SendContent` writes exactly the records of the content's chunks, in order, up to the first
  -- write that fails: the state it leaves and the error it returns are those of that sequence.
  pub send_content-eq-write_all :
      (sid : ℕ) (content : Bytes) (c : Conn chan sock)
      → send_content sid content c ≡ write_all (map encode (content_chunks sid content)) c
  unfolding send_content
  send_content-eq-write_all sid content c =
      ap (λ m. m c)
        (send_loop-eq-write_all chunk_payload_size (suc (length content)) sid 0 content
          (omega arith) (omega arith))

  -- What `SendContent` writes are the records of chunks that carry the content's bytes in order, up
  -- to the first write that fails. The last of the chunks, and no other, is marked final; and each
  -- names the stream, numbers itself in 32 bits, and has a record that is at most the 65535 bytes
  -- of a Noise message with the 16 bytes that sealing adds.
  pub send_content_sound :
      (sid : ℕ) (content : Bytes) (c : Conn chan sock)
      → (ks : List Chunk) × (send_content sid content c ≡ write_all (map encode ks) c)
        × (payloads ks ≡ content)
        × IsEnded ks
        × All (IsRecordOf sid) ks
  send_content_sound sid content c =
      let (whole, ended, fits) = content_chunks_sound sid content in
      (
        content_chunks sid content,
        send_content-eq-write_all sid content c,
        whole,
        ended,
        All-map (IsRecordOf-IsChunkOf sid) (content_chunks sid content) fits,
      )
