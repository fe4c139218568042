-- ===== src/Examples/Transport.antt =====
-- Binding, the session limit, the dispatch and the messages with content at concrete values.
use claude_share.Base.{
  ℕ, ◌+◌, ◌≤◌, ◌≡◌, ◌⊎◌, ◌↔◌, refl, true, false, Bytes, bytes_eq, codes, none, some, [], ◌∷◌, ◌++◌,
  map, replicate, ◌==◌, ◌>>=◌, sym, ap, Result, ok, err, foreign, arith, length, wildcard_address,
  if◌then◌else◌,
}
use claude_share.Domain.{FileChange, change_create, change_delete}
use claude_share.Protocol.{encode_envelope, tag_envelope}
use claude_share.Protocol.MessageType
use claude_share.Ws.Conn.{Conn, Framed, stream_id_of}
use claude_share.Ws.Conn.Chunks.{encode, content_chunks}
use claude_share.Ws.Conn.Send.{write_all}
use claude_share.Ws.Client.{upload_blob}
use claude_share.Ws.Notifier.{file_change}
use claude_share.Ws.Sent.{upload_blob-eq-write_all, file_change-eq-write_all, message}
use claude_share.Ws.Server.{
  Net, ServerConfig, Server, Driven, check_bind, new_server, take_slot, dispatch,
}
use claude_share.Ws.Server.Bind.{new_server_iff, IsInside}
use claude_share.Ws.Server.Slots.{done, next, accepted, Steps-within_limit}
use claude_share.Ws.Server.Served.{dispatch_ended}
use claude_share.Examples.Toy.{json, channel, socket}

-- Hosts are one byte, or none before a colon; the only IP addresses are "1" and "7", and "7" is a
-- loopback address.
abbrev colon : ℕ
colon = 58

abbrev net : Net
net = record {
  Ip = ℕ;
  split_host_port = λ addr. elim addr [
    | [] ↦ err (foreign [])
    | c ∷ port ↦ if c == colon then ok ([], port) else ok (c ∷ [], port)
  ];
  parse_ip = λ host.
      if bytes_eq host (codes "1")
      then some 1
      else if bytes_eq host (codes "7")
      then some 7
      else none;
  is_loopback = λ ip. ip == 7;
}

abbrev config : ServerConfig
config = record { addr = codes "7:80"; psk = replicate 32 1; allow_public = true; max_sessions = 1 }

abbrev inside : ServerConfig
inside = record config { allow_public = false }

abbrev server : Server
server = record { cfg = config; slots = some 1; used = 0 }

new_server_iff_example :
    ((s : Server) × (new_server net inside ≡ ok s))
    ↔ ((length inside.psk ≡ 32) × ((inside.allow_public ≡ true) ⊎ IsInside net inside.addr))
new_server_iff_example = new_server_iff net inside

-- With an empty host the server would listen on every interface.
wildcard_run : new_server net (record inside { addr = codes ":80" }) ≡ err wildcard_address
unfolding new_server check_bind bytes_eq
wildcard_run = refl

server_run : new_server net config ≡ ok server
unfolding new_server check_bind
server_run = refl

took_one : take_slot server ≡ some (record server { used = 1 })
unfolding take_slot
took_one = refl

Steps-within_limit_example : (1 ≤ config.max_sessions) × ((record server { used = 1 }).used ≡ 1)
Steps-within_limit_example =
    Steps-within_limit net config server
      (record { server = record server { used = 1 }; running = 1 }) server_run (omega arith)
      (next done (accepted took_one))

-- A service that counts the prompts.
abbrev svc : Driven
svc = record {
  State = ℕ;
  start_session = λ name m s. (ok [], s);
  put_blob = λ h c s. (ok tt, s);
  sync_done = λ s. (ok [], s);
  interrupt = λ s. (ok tt, s);
  spawn_prompt = λ text s. s + 1;
  sync_request = λ hs s. (ok tt, s);
  session_ready = λ id s. (ok tt, s);
  error = λ text s. (ok tt, s);
}

abbrev framed : Bytes → Framed
framed typ = record {
  env = record { typ = typ; id = []; payload = [] };
  content = [];
  has_content = false;
}

dispatch_ended_example :
    dispatch svc json
      (λ e. [])
      (framed MessageType.prompt ∷ framed MessageType.session_end ∷ framed MessageType.prompt ∷ [])
      (foreign [])
      0
    ≡ dispatch svc json
        (λ e. [])
        (framed MessageType.prompt ∷ framed MessageType.session_end ∷ [])
        (foreign (codes "x"))
        0
dispatch_ended_example =
    dispatch_ended svc json (λ e. []) (framed MessageType.prompt ∷ [])
      (framed MessageType.prompt ∷ []) (framed MessageType.session_end) (foreign [])
      (foreign (codes "x")) 0 refl

abbrev fresh : Conn channel socket
fresh = record { channel = 0; socket = ([], []); out_seq = 0; pending = [] }

abbrev hi : Bytes
hi = codes "hi"

abbrev blob_bytes : Bytes
blob_bytes = 1 ∷ 2 ∷ codes "h"

abbrev blob_record : Bytes
blob_record = tag_envelope ∷ 4 ∷ codes "blob" ++ 0 ∷ 3 ∷ blob_bytes

blob_encoded : encode_envelope json (message MessageType.blob blob_bytes) ≡ ok blob_record
unfolding encode_envelope
blob_encoded = refl

upload_blob-eq-write_all_example :
    (upload_blob json (codes "h") hi fresh
      ≡ write_all (blob_record ∷ map encode (content_chunks 1 hi)) (record fresh { out_seq = 1 }))
    × (stream_id_of json (message MessageType.blob blob_bytes) ≡ ok 1)
upload_blob-eq-write_all_example =
    upload_blob-eq-write_all json fresh (codes "h") hi blob_bytes blob_record refl
      (λ b h. sym (ap (λ (r : Result Bytes). r >>= json.blob.unmarshal) h)) blob_encoded

abbrev change : FileChange
change = record { op = change_create; path = codes "a"; hash = codes "h"; mode = 420 }

abbrev change_bytes : Bytes
change_bytes = 1 ∷ 2 ∷ 420 ∷ 6 ∷ codes "create" ++ 1 ∷ codes "ah"

abbrev change_record : Bytes
change_record = tag_envelope ∷ 11 ∷ codes "file.change" ++ 0 ∷ 13 ∷ change_bytes

change_encoded :
    encode_envelope json (message MessageType.file_change change_bytes) ≡ ok change_record
unfolding encode_envelope
change_encoded = refl

no_deletion : bytes_eq change.op change_delete ≡ false
unfolding bytes_eq
no_deletion = refl

file_change-eq-write_all_example :
    (file_change json change hi fresh
      ≡ write_all (change_record ∷ map encode (content_chunks 1 hi)) (record fresh { out_seq = 1 }))
    × (stream_id_of json (message MessageType.file_change change_bytes) ≡ ok 1)
file_change-eq-write_all_example =
    file_change-eq-write_all json fresh change hi change_bytes change_record no_deletion
      (omega arith) refl
      (λ b h. sym (ap (λ (r : Result Bytes). r >>= json.file_change.unmarshal) h)) change_encoded
