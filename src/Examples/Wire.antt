-- ===== src/Examples/Wire.antt =====
-- Records and content streams at concrete messages.
use claude_share.Base.{
  ℕ, Bool, ◌≡◌, ◌≢◌, refl, sym, ap, ◌>>=◌, Bytes, bytes_eq, codes, true, false, some, List, [], ◌∷◌,
  ◌++◌, All, Result, ok, length, map, ◌<◌, arith,
}
use claude_share.Base.Dict
use claude_share.Base.Dict.{Dict, nat_eq}
use claude_share.Protocol.{
  Envelope, RoundTrips, Record, chunk_record, envelope_record, decode_record, encode_chunk,
  encode_envelope, tag_envelope,
}
use claude_share.Protocol.MessageType
use claude_share.Protocol.Bigendian.{put_uint}
use claude_share.Protocol.Framing.{decode-encode_chunk}
use claude_share.Protocol.{Chunk}
use claude_share.Ws.Conn.{Conn, Framed, Asm, on_record, stream_id_of, send_content, read_message}
use claude_share.Ws.Conn.Chunks.{payloads, IsEnded, encode, content_chunks, chunks}
use claude_share.Ws.Conn.Send.{write_all, send_content-eq-write_all, IsRecordOf, send_content_sound}
use claude_share.Ws.Conn.Receive.{collect, chunks_of}
use claude_share.Ws.Conn.Isolation.{stream-Delivered, Delivered}
use claude_share.Ws.Conn.RoundTrip.{Yields, frame, nothing, conn, read_message-send}
use claude_share.Examples.Toy.{json, channel, socket}

decode-encode_chunk_example :
    decode_record json (encode_chunk 7 0 true (codes "hi"))
    ≡ ok (chunk_record (record { stream_id = 7; seq = 0; final = true; payload = codes "hi" }))
decode-encode_chunk_example =
    decode-encode_chunk json 7 0 true (codes "hi") (omega arith) (omega arith)

abbrev upload : Envelope
upload = record { typ = codes "blob"; id = []; payload = 7 ∷ 2 ∷ codes "h" }

upload_round : RoundTrips json.envelope upload
upload_round b h = sym (ap (λ (r : Result Bytes). r >>= json.envelope.unmarshal) h)

abbrev upload_bytes : Bytes
upload_bytes = 4 ∷ codes "blob" ++ 0 ∷ 3 ∷ 7 ∷ 2 ∷ codes "h"

-- Three bytes in chunks of two.
chunks_run :
    chunks 2 4 7 0 (codes "abc")
    ≡ record { stream_id = 7; seq = 0; final = false; payload = codes "ab" }
      ∷ record { stream_id = 7; seq = 1; final = true; payload = codes "c" }
      ∷ []
unfolding chunks
chunks_run = refl

abbrev fresh : Conn channel socket
fresh = record { channel = 0; socket = ([], []); out_seq = 0; pending = [] }

send_content-eq-write_all_example :
    send_content 7 (codes "hi") fresh ≡ write_all (map encode (content_chunks 7 (codes "hi"))) fresh
send_content-eq-write_all_example = send_content-eq-write_all 7 (codes "hi") fresh

send_content_sound_example :
    (ks : List Chunk) × (send_content 7 (codes "hi") fresh ≡ write_all (map encode ks) fresh)
    × (payloads ks ≡ codes "hi")
    × IsEnded ks
    × All (IsRecordOf 7) ks
send_content_sound_example = send_content_sound 7 (codes "hi") fresh

abbrev prompt : Envelope
prompt = record { typ = MessageType.prompt; id = []; payload = [] }

abbrev piece : ℕ → Bool → Bytes → Record
piece n final b = chunk_record (record { stream_id = 7; seq = n; final = final; payload = b })

abbrev mixed : List Record
mixed = piece 0 false (codes "ab") ∷ envelope_record prompt ∷ piece 1 true (codes "c") ∷ []

abbrev announced : Asm
announced = record { env = upload; buf = [] }

abbrev waiting : Dict ℕ Asm
waiting = (7, announced) ∷ []

prompt_is_no_start : stream_id_of json prompt ≢ ok 7
unfolding stream_id_of bytes_eq
prompt_is_no_start e = ground arith

abbrev mixed_messages : List Framed
mixed_messages =
    record { env = prompt; content = []; has_content = false }
    ∷ record { env = upload; content = codes "abc"; has_content = true }
    ∷ []

mixed_run : collect json mixed waiting ≡ (ok mixed_messages, [])
unfolding collect on_record stream_id_of bytes_eq Dict.get Dict.put Dict.delete
mixed_run = refl

waiting_run : Dict.get 7 waiting ≡ some announced
unfolding Dict.get
waiting_run = refl

stream-Delivered_example : Delivered json 7 announced (chunks_of 7 mixed) mixed_messages []
stream-Delivered_example =
    stream-Delivered json 7 mixed waiting [] mixed_messages announced
      (tt, (prompt_is_no_start, (tt, tt))) (refl, refl) waiting_run mixed_run

upload_id : stream_id_of json upload ≡ ok 7
unfolding stream_id_of bytes_eq
upload_id = refl

upload_record : encode_envelope json upload ≡ ok (tag_envelope ∷ upload_bytes)
unfolding encode_envelope
upload_record = refl

abbrev chunk_bytes : Bytes
chunk_bytes = 2 ∷ 0 ∷ 0 ∷ 0 ∷ 0 ∷ 0 ∷ 0 ∷ 0 ∷ 7 ∷ 0 ∷ 0 ∷ 0 ∷ 0 ∷ 1 ∷ codes "hi"

chunk_run : map encode (content_chunks 7 (codes "hi")) ≡ chunk_bytes ∷ []
unfolding chunks encode_chunk put_uint
chunk_run = refl

one_chunk : length (content_chunks 7 (codes "hi")) < 2
unfolding chunks
one_chunk = omega arith

abbrev inbox : List Bytes
inbox = (255 ∷ tag_envelope ∷ upload_bytes) ∷ (255 ∷ chunk_bytes) ∷ []

arrived :
    Yields channel socket 0
      ([], inbox)
      ((tag_envelope ∷ upload_bytes) ∷ map encode (content_chunks 7 (codes "hi")))
      0
      ([], [])
arrived = rw chunk_run (frame _ refl refl (frame _ refl refl nothing))

read_message-send_example :
    read_message 2 json (conn {chan = channel} {sock = socket} 0 ([], inbox) 0 []) ≡ (
      ok (record { env = upload; content = codes "hi"; has_content = true }),
      conn 0 ([], []) 0 (Dict.delete 7 []),
    )
read_message-send_example =
    read_message-send json upload (tag_envelope ∷ upload_bytes) (codes "hi") 7 2 0 0 ([], inbox)
      ([], []) 0 [] upload_record upload_round upload_id (omega arith) (omega arith) arrived
      one_chunk
