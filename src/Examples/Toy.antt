-- ===== src/Examples/Toy.antt =====
-- Stand-ins for what the program takes from outside: coders, a cipher and a socket.
use claude_share.Base.{ℕ, Bytes, List, [], ◌∷◌, ◌++◌, length, take, drop, Result, ok, err, foreign}
use claude_share.Protocol.{Coder, Envelope, BlobData, FileChangeData, Json}
use claude_share.Ws.Conn.{SecureChannel, Socket}

-- A field behind its length.
abbrev pub field : Bytes → Bytes
field b = length b ∷ b

abbrev pub first_field : Bytes → Bytes
first_field [] = []
first_field (n ∷ b) = take n b

abbrev pub other_fields : Bytes → Bytes
other_fields [] = []
other_fields (n ∷ b) = drop n b

abbrev pub read_as : {A : Type 0} → Coder A → Result Bytes → Result A
read_as coder (ok b) = coder.unmarshal b
read_as coder (err e) = err e

abbrev pub refusing : (A : Type 0) → Coder A
refusing A = record { marshal = λ _. err (foreign []); unmarshal = λ _. err (foreign []) }

abbrev pub envelope_coder : Coder Envelope
envelope_coder = record {
  marshal = λ env. ok (field env.typ ++ field env.id ++ field env.payload);
  unmarshal = λ b. ok (record {
    typ = first_field b;
    id = first_field (other_fields b);
    payload = first_field (other_fields (other_fields b));
  });
}

abbrev pub number_at : ℕ → Bytes → ℕ
number_at i b = elim (drop i b) [ [] ↦ 0 | n ∷ _ ↦ n ]

abbrev pub blob_coder : Coder BlobData
blob_coder = record {
  marshal = λ d. ok (d.stream_id ∷ d.size ∷ d.hash);
  unmarshal = λ b. ok (record { stream_id = number_at 0 b; size = number_at 1 b; hash = drop 2 b });
}

abbrev pub change_coder : Coder FileChangeData
change_coder = record {
  marshal = λ d. ok (d.stream_id ∷ d.size ∷ d.mode ∷ field d.op ++ field d.path ++ d.hash);
  unmarshal = λ b. ok (record {
    op = first_field (drop 3 b);
    path = first_field (other_fields (drop 3 b));
    mode = number_at 2 b;
    hash = other_fields (other_fields (drop 3 b));
    stream_id = number_at 0 b;
    size = number_at 1 b;
  });
}

abbrev pub json : Json
json = record {
  envelope = envelope_coder;
  session_start = refusing _;
  sync_request = refusing _;
  blob = blob_coder;
  prompt = refusing _;
  stream_event = refusing _;
  file_change = change_coder;
  turn_done = refusing _;
  error = refusing _;
  session_ready = refusing _;
}

-- A channel that seals by a first byte.
abbrev pub channel : SecureChannel
channel = record {
  State = ℕ;
  seal = λ b n. (ok (255 ∷ b), n);
  unseal = λ b n. (elim b [ [] ↦ err (foreign []) | _ ∷ p ↦ ok p ], n);
}

-- The frames that were written, and those that wait to be read.
abbrev pub Frames : Type 0
Frames = List Bytes × List Bytes

abbrev pub socket : Socket
socket = record {
  State = Frames;
  write = λ b s. (ok tt, (s.0 ++ b ∷ [], s.1));
  read = λ s. elim s.1 [ [] ↦ (err (foreign []), s) | f ∷ fs ↦ (ok f, (s.0, fs)) ];
}
