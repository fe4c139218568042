-- ===== src/Protocol/Framing.antt =====
-- Encoding and decoding of records, and their size.
use claude_share.Base.{
  ℕ, ◌+◌, ◌^◌, ◌<◌, ◌≡◌, refl, ◌∙◌, Bool, true, false, Bytes, [], ◌∷◌, ◌++◌, ◌==◌, ltb,
  if◌then◌else◌, length, take, drop, take_exact, drop_exact, append_assoc, length-append, Result,
  ok, err, ◌>>=◌, guard, arith, envelope_too_large, not,
}
use claude_share.Protocol.Bigendian.{put_uint, uint, length-put_uint, uint-put_uint}
use claude_share.Protocol.{
  Envelope, chunk_record, envelope_record, Json, RoundTrips, encode_chunk, encode_envelope,
  decode_chunk, is_one, decode_record, max_record_plaintext, tag_chunk, tag_envelope,
}

abbrev final_byte : Bool → ℕ
final_byte final = if final then 1 else 0

-- The header's fields are cut out at their places.
module _ (a b : Bytes) (x : ℕ) (p : Bytes) (ha : length a ≡ 8) (hb : length b ≡ 4) where
  long_enough : ltb (length (tag_chunk ∷ (a ++ (b ++ x ∷ p)))) 14 ≡ false
  long_enough = ground (arith, length-append a (b ++ x ∷ p), length-append b (x ∷ p))

  cut_first : take 8 (a ++ (b ++ x ∷ p)) ≡ a
  cut_first = take_exact 8 a (b ++ x ∷ p) ha

  cut_second : take 4 (drop 8 (a ++ (b ++ x ∷ p))) ≡ b
  cut_second = rw (drop_exact 8 a (b ++ x ∷ p) ha) (take_exact 4 b (x ∷ p) hb)

  cut_flag : drop 12 (a ++ (b ++ x ∷ p)) ≡ x ∷ p
  cut_flag =
      rw (← append_assoc a b (x ∷ p))
        (drop_exact 12 (a ++ b) (x ∷ p) (length-append a b ∙ omega arith))

  cut_payload : drop 13 (a ++ (b ++ x ∷ p)) ≡ p
  cut_payload =
      rw (← append_assoc a b (x ∷ p), ← append_assoc (a ++ b) (x ∷ []) p)
        (drop_exact 13 ((a ++ b) ++ x ∷ []) p
          (length-append (a ++ b) (x ∷ []) ∙ omega (arith, length-append a b)))

  decode_parts :
      decode_chunk (tag_chunk ∷ (a ++ (b ++ x ∷ p)))
      ≡ ok (chunk_record (record { stream_id = uint a; seq = uint b; final = x == 1; payload = p }))
  unfolding decode_chunk is_one
  decode_parts = rw (long_enough, cut_first, cut_second, cut_flag, cut_payload)

pub length-encode_chunk :
    (s q : ℕ) (f : Bool) (p : Bytes) → length (encode_chunk s q f p) ≡ length p + 14
unfolding encode_chunk
length-encode_chunk s q f p = omega (
  arith,
  length-append (put_uint 8 s) (put_uint 4 q ++ final_byte f ∷ p),
  length-append (put_uint 4 q) (final_byte f ∷ p),
  length-put_uint 8 s,
  length-put_uint 4 q,
)

final_byte_lem : (f : Bool) → (final_byte f == 1) ≡ f
final_byte_lem true = refl
final_byte_lem false = refl

-- A chunk record is decoded to the chunk that was encoded, for every stream id of 64 bits, every
-- sequence number of 32 bits, both values of the final flag and every payload.
pub decode-encode_chunk :
    (json : Json) (s q : ℕ) (f : Bool) (p : Bytes)
    → s < 2 ^ 64
    → q < 2 ^ 32
    → decode_record json (encode_chunk s q f p)
      ≡ ok (chunk_record (record { stream_id = s; seq = q; final = f; payload = p }))
unfolding decode_record encode_chunk
decode-encode_chunk json s q f p hs hq = rw (
  decode_parts (put_uint 8 s) (put_uint 4 q) (final_byte f) p (length-put_uint 8 s)
      (length-put_uint 4 q),
  uint-put_uint 8 s hs,
  uint-put_uint 4 q hq,
  final_byte_lem,
)

-- For an envelope that is marshalled and whose text is read back: the text behind the tag is the
-- record, unless it is larger than the limit, and that record is decoded to the envelope.
pub decode-encode_envelope :
    (json : Json) (env : Envelope) (b : Bytes)
    → json.envelope.marshal env ≡ ok b
    → RoundTrips json.envelope env
    → (encode_envelope json env ≡ (
        if ltb max_record_plaintext (length b + 1)
        then err envelope_too_large
        else ok (tag_envelope ∷ b)))
      × (decode_record json (tag_envelope ∷ b) ≡ ok (envelope_record env))
unfolding encode_envelope decode_record
decode-encode_envelope json env b m r = (rw m (ground arith), rw (r b m))

encoded_by :
    (r : Result Bytes) (rec : Bytes)
    → (r >>= λ b. guard (not (ltb max_record_plaintext (length b + 1))) envelope_too_large >>= λ _.
        ok (tag_envelope ∷ b))
      ≡ ok rec
    → (b : Bytes) × (r ≡ ok b) × (rec ≡ tag_envelope ∷ b)
encoded_by (err e) rec h = cc
encoded_by (ok b) rec h = (b, refl, ground arith)

-- Every record that `EncodeEnvelope` returns is decoded to the envelope.
pub decode_encoded :
    (json : Json) (env : Envelope) (rec : Bytes)
    → encode_envelope json env ≡ ok rec
    → RoundTrips json.envelope env
    → decode_record json rec ≡ ok (envelope_record env)
decode_encoded json env rec h r =
    let (b, m, e) = encoded_by (json.envelope.marshal env) rec (unfold encode_envelope in h) in
    rw e (decode-encode_envelope json env b m r).1
