-- ===== src/Ws/Conn/Chunks.antt =====
-- The chunks that a content is cut into, as a list: what the loop of `SendContent` in
-- internal/adapters/transport/ws/codec.go is meant to send.
use claude_share.Base.{
  ℕ, zero, suc, ◌+◌, ◌%◌, ◌^◌, ◌≤◌, ◌<◌, ◌≡◌, refl, true, false, Bytes, List, [], ◌∷◌, ◌++◌, ◌==◌,
  ltb, if◌then◌else◌, length, length-take, length-drop, take, drop, take-append-drop, take_all, All,
  append-nil, arith, Bool-cases, inl, inr,
}
use claude_share.Protocol.{Chunk, encode_chunk, chunk_payload_size}

abbrev pub chunk_end : ℕ → Bytes → ℕ
chunk_end size content = if ltb size (length content) then size else length content

-- The chunks of a content. All but the last hold `size` bytes.
unfoldable pub chunks : ℕ → ℕ → ℕ → ℕ → Bytes → List Chunk
chunks size zero sid seq content = []
chunks size (suc fuel) sid seq content =
    let end = chunk_end size content in
    let rest = chunks size fuel sid ((seq + 1) % 2 ^ 32) (drop end content) in
    let final = end == length content in
    record { stream_id = sid; seq = seq; final = final; payload = take end content }
    ∷ (if final then [] else rest)

abbrev pub encode : Chunk → Bytes
encode c = encode_chunk c.stream_id c.seq c.final c.payload

-- The payloads of a list of chunks in order.
abbrev pub payloads : List Chunk → Bytes
payloads [] = []
payloads (c ∷ cs) = c.payload ++ payloads cs

-- The last chunk is final and no other.
abbrev pub IsEnded : List Chunk → Type 0
IsEnded [] = ⊥
IsEnded (c ∷ []) = c.final ≡ true
IsEnded (c ∷ d ∷ cs) = (c.final ≡ false) × IsEnded (d ∷ cs)

-- A chunk of the stream with a payload of at most `size` bytes.
abbrev pub IsChunkOf : ℕ → ℕ → Chunk → Type 0
IsChunkOf size sid c = (c.stream_id ≡ sid) × (c.seq < 2 ^ 32) × (length c.payload ≤ size)

pub drop_shrinks :
    (size : ℕ) (content : Bytes)
    → 0 < size
    → (chunk_end size content == length content) ≡ false
    → length (drop (chunk_end size content) content) < length content
drop_shrinks size content h more = rw length-drop (ground arith)

payloads-chunks :
    (size fuel sid seq : ℕ) (content : Bytes)
    → 0 < size
    → length content < fuel
    → payloads (chunks size fuel sid seq content) ≡ content
unfolding chunks
payloads-chunks size zero sid seq content h f = absurd (omega arith)
payloads-chunks size (suc fuel) sid seq content h f =
    elim (Bool-cases (chunk_end size content == length content)) [
      | inl done ↦ rw done (rw append-nil (take_all _ content (ground arith)))
      | inr more ↦
          rw
            (
              more,
              payloads-chunks size fuel sid ((seq + 1) % 2 ^ 32)
                  (drop (chunk_end size content) content) h
                  (omega (arith, drop_shrinks size content h more)),
            )
            (take-append-drop (chunk_end size content) content)
    ]

IsEnded-cons : (c : Chunk) (cs : List Chunk) → c.final ≡ false → IsEnded cs → IsEnded (c ∷ cs)
IsEnded-cons c [] h e = absurd e
IsEnded-cons c (d ∷ cs) h e = (h, e)

chunk_end-le : (size : ℕ) (content : Bytes) → chunk_end size content ≤ size
chunk_end-le size content = ground arith

IsEnded-chunks :
    (size fuel sid seq : ℕ) (content : Bytes)
    → 0 < size
    → length content < fuel
    → IsEnded (chunks size fuel sid seq content)
unfolding chunks
IsEnded-chunks size zero sid seq content h f = absurd (omega arith)
IsEnded-chunks size (suc fuel) sid seq content h f =
    elim (Bool-cases (chunk_end size content == length content)) [
      | inl done ↦ rw done refl
      | inr more ↦ rw more (
          IsEnded-cons
            (record {
              stream_id = sid;
              seq = seq;
              final = false;
              payload = take (chunk_end size content) content;
            })
            _ refl
            (IsEnded-chunks size fuel sid ((seq + 1) % 2 ^ 32)
              (drop (chunk_end size content) content) h
              (omega (arith, drop_shrinks size content h more))))
    ]

IsChunkOf-chunks :
    (size fuel sid seq : ℕ) (content : Bytes)
    → seq < 2 ^ 32
    → All (IsChunkOf size sid) (chunks size fuel sid seq content)
unfolding chunks
IsChunkOf-chunks size zero sid seq content h = tt
IsChunkOf-chunks size (suc fuel) sid seq content h = (
  (refl, h, omega (arith, length-take (chunk_end size content) content, chunk_end-le size content)),
  elim (Bool-cases (chunk_end size content == length content)) [
    | inl done ↦ rw done tt
    | inr more ↦ rw more (IsChunkOf-chunks size fuel sid _ _ (omega arith))
  ],
)

-- The chunks that `SendContent` makes of a content.
abbrev pub content_chunks : ℕ → Bytes → List Chunk
content_chunks sid content = chunks chunk_payload_size (suc (length content)) sid 0 content

-- The chunks of a content carry its bytes in order; the last of them, and no other, is marked
-- final; and each belongs to the stream, numbers itself in 32 bits and has at most the payload
-- that a chunk may have.
pub content_chunks_sound :
    (sid : ℕ) (content : Bytes)
    → (payloads (content_chunks sid content) ≡ content)
      × IsEnded (content_chunks sid content)
      × All (IsChunkOf chunk_payload_size sid) (content_chunks sid content)
content_chunks_sound sid content = (
  payloads-chunks chunk_payload_size (suc (length content)) sid 0 content (omega arith)
      (omega arith),
  IsEnded-chunks chunk_payload_size (suc (length content)) sid 0 content (omega arith)
      (omega arith),
  IsChunkOf-chunks chunk_payload_size (suc (length content)) sid 0 content (omega arith),
)
