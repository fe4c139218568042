-- ===== src/Protocol.antt =====
-- internal/protocol/protocol.go: the message types, the data of each message, and the framing of
-- records. encoding/json is a parameter, one coder for each type that the program marshals.
pub mod MessageType
pub mod Bigendian
pub mod Framing
use claude_share.Base.{
  ℕ, ◌+◌, ◌-◌, ◌≡◌, not, Bool, true, false, Bytes, bytes_eq, codes, List, [], ◌∷◌, ◌++◌, ◌==◌, ltb,
  if◌then◌else◌, length, take, drop, Result, ok, err, ◌>>=◌, ◌>>◌, guard, envelope_too_large,
  empty_record, short_chunk, unknown_tag,
}
use Bigendian.{put_uint, uint}

abbrev pub max_record_plaintext : ℕ
max_record_plaintext = 65519

abbrev pub chunk_payload_size : ℕ
chunk_payload_size = max_record_plaintext - 1 - 13

abbrev pub tag_envelope : ℕ
tag_envelope = 1

abbrev pub tag_chunk : ℕ
tag_chunk = 2

pub record Envelope : Type 0 where
  pub typ : Bytes
  pub id : Bytes
  pub payload : Bytes

pub record FileEntryDto : Type 0 where
  pub path : Bytes
  pub hash : Bytes
  pub size : ℕ
  pub mode : ℕ

pub record SessionStartData : Type 0 where
  pub project_name : Bytes
  pub manifest : List FileEntryDto

pub record SyncRequestData : Type 0 where
  pub missing : List Bytes

pub record BlobData : Type 0 where
  pub stream_id : ℕ
  pub hash : Bytes
  pub size : ℕ

pub record PromptData : Type 0 where
  pub text : Bytes

pub record StreamEventData : Type 0 where
  pub kind : Bytes
  pub text : Bytes
  pub raw : Bytes

pub record FileChangeData : Type 0 where
  pub op : Bytes
  pub path : Bytes
  pub mode : ℕ
  pub hash : Bytes
  pub stream_id : ℕ
  pub size : ℕ

pub record TurnDoneData : Type 0 where
  pub is_error : Bool
  pub cost_usd : ℕ
  pub text : Bytes
  pub num_turns : ℕ

pub record ErrorData : Type 0 where
  pub message : Bytes

pub record SessionReadyData : Type 0 where
  pub session_id : Bytes

-- json.Marshal and json.Unmarshal at one type.
pub record Coder (A : Type 0) : Type 0 where
  pub marshal : A → Result Bytes
  pub unmarshal : Bytes → Result A

-- What the program relies on: a value that was marshalled is read back. encoding/json promises it
-- for the values whose texts are valid UTF-8.
abbrev pub RoundTrips : {A : Type 0} → Coder A → A → Type 0
RoundTrips coder a = (b : Bytes) → coder.marshal a ≡ ok b → coder.unmarshal b ≡ ok a

pub record Json : Type 0 where
  pub envelope : Coder Envelope
  pub session_start : Coder SessionStartData
  pub sync_request : Coder SyncRequestData
  pub blob : Coder BlobData
  pub prompt : Coder PromptData
  pub stream_event : Coder StreamEventData
  pub file_change : Coder FileChangeData
  pub turn_done : Coder TurnDoneData
  pub error : Coder ErrorData
  pub session_ready : Coder SessionReadyData

-- `UnmarshalData` into a variable that holds `zero`.
unfoldable pub unmarshal_data : {A : Type 0} → Coder A → A → Envelope → Result A
unmarshal_data coder zero env =
    if bytes_eq env.payload [] then ok zero else coder.unmarshal env.payload

pub record Chunk : Type 0 where
  pub stream_id : ℕ
  pub seq : ℕ
  pub final : Bool
  pub payload : Bytes

-- Of the struct `Record` one part is populated.
pub data Record : Type 0 where
  envelope_record : Envelope → Record
  chunk_record : Chunk → Record

unfoldable pub encode_envelope : Json → Envelope → Result Bytes
encode_envelope json env = do
  b ← json.envelope.marshal env
  guard (not (ltb max_record_plaintext (length b + 1))) envelope_too_large
  ok (tag_envelope ∷ b)

unfoldable pub encode_chunk : ℕ → ℕ → Bool → Bytes → Bytes
encode_chunk stream_id seq final payload =
    tag_chunk ∷ (put_uint 8 stream_id ++ (put_uint 4 seq ++ (if final then 1 else 0) ∷ payload))

-- b[from:to]
abbrev slice : ℕ → ℕ → Bytes → Bytes
slice from to b = take (to - from) (drop from b)

-- b[0] == 1
pub is_one : Bytes → Bool
is_one [] = false
is_one (c ∷ b) = c == 1

decode_chunk : Bytes → Result Record
decode_chunk b =
    if ltb (length b) 14
    then err short_chunk
    else ok (
        chunk_record (record {
          stream_id = uint (slice 1 9 b);
          seq = uint (slice 9 13 b);
          final = is_one (drop 13 b);
          payload = drop 14 b;
        }))

unfoldable pub decode_record : Json → Bytes → Result Record
unfolding decode_chunk
decode_record json [] = err empty_record
decode_record json (tag ∷ rest) =
    if tag == tag_envelope
    then (do env ← json.envelope.unmarshal rest; ok (envelope_record env))
    else if tag == tag_chunk
    then decode_chunk (tag ∷ rest)
    else err unknown_tag
