-- ===== src/Examples/Uploaded.antt =====
-- A blob from a client to a service over a toy cipher.
use claude_share.Base.{
  ℕ, ◌+◌, ◌≡◌, refl, sym, ap, ◌∙◌, Bool, Bytes, codes, none, List, [], ◌∷◌, ◌++◌, Error, Result, ok,
  err, foreign, arith,
}
use claude_share.Base.Exec.{◌>>=◌}
use claude_share.Protocol.{encode_envelope, encode_chunk}
use claude_share.Secrets.Noise.{NoiseLib, Channel, seal}
use claude_share.Ws.Conn.{Conn, Framed, write_record, send_envelope, send_content, new_stream_id}
use claude_share.Ws.Conn.Linked.{noise_channel, Writes, IsCipherLink}
use claude_share.Ws.Client.{upload_blob}
use claude_share.Ws.Notifier.{send_data}
use claude_share.Ws.Sent.{next_id}
use claude_share.Ws.Server.{Driven, dispatch}
use claude_share.EndToEnd.Upload.{IsReadBack}
use claude_share.EndToEnd.Upload.Dispatched.{
  all_sent, upload, AreMessages, put_all, blobs_dispatched,
}
use claude_share.Examples.Toy.{json, socket, read_as}

-- A cipher that counts its messages and puts the count in front.
abbrev pub counting : NoiseLib
counting = record {
  State = Bool;
  Cipher = ℕ;
  new_state = λ initiator psk. ok initiator;
  write_handshake = λ s. (ok ([], none, none), s);
  read_handshake = λ m s. (ok (none, none), s);
  encrypt = λ b n. (ok (255 ∷ b), n + 1);
  decrypt = λ b n. elim b [ [] ↦ (err (foreign []), n) | _ ∷ p ↦ (ok p, n + 1) ];
}

counting_links : IsCipherLink counting (λ a b. a ≡ b)
counting_links a a' b plain sealed same e =
    let s : 255 ∷ plain ≡ sealed = cc (ap (λ (q : Result Bytes × ℕ). q.0) e) in
    (b + 1, rw (← s) refl, sym (ap (λ (q : Result Bytes × ℕ). q.1) e) ∙ ap (λ (n : ℕ). n + 1) same)

abbrev hi : Bytes
hi = codes "hi"

abbrev blob : Bytes × Bytes
blob = (codes "h", hi)

blob_bytes : (n : ℕ) → Bytes
blob_bytes n = next_id n ∷ 2 ∷ codes "h"

read_back : (n : ℕ) → IsReadBack json (codes "h") hi n
unfolding blob_bytes
read_back n = record {
  blob_back = λ b h. sym (ap (read_as json.blob) h);
  not_empty = λ b h e. cc (h, e);
  envelope_back = λ b h r k.
      let is : blob_bytes n ≡ b = cc h in
      rw (← is) (sym (ap (read_as json.envelope) (rw (← is) at k)));
}

abbrev client : Conn (noise_channel counting) socket
client = record {
  channel = record { send = 0; recv = 0 };
  socket = ([], []);
  out_seq = 0;
  pending = [];
}

abbrev sent : Conn (noise_channel counting) socket
sent = (upload_blob {chan = noise_channel counting} {sock = socket} json (codes "h") hi client).1

uploaded :
    upload_blob {chan = noise_channel counting} {sock = socket} json (codes "h") hi client
    ≡ (ok tt, sent)
unfolding upload_blob new_stream_id send_data send_envelope encode_envelope write_record
    send_content encode_chunk seal
uploaded = refl

-- A service that keeps what it is given.
abbrev store : Driven
store = record {
  State = List (Bytes × Bytes);
  start_session = λ name m s. (ok [], s);
  put_blob = λ h c s. (ok tt, s ++ (h, c) ∷ []);
  sync_done = λ s. (ok [], s);
  interrupt = λ s. (ok tt, s);
  spawn_prompt = λ text s. s;
  sync_request = λ hs s. (ok tt, s);
  session_ready = λ id s. (ok tt, s);
  error = λ text s. (ok tt, s);
}

abbrev peer : Channel counting
peer = record { send = 0; recv = 0 }

blobs_dispatched_example :
    (frames : List Bytes) × (ms : List Framed) × (ch' : Channel counting) × Writes socket
      ([], [])
      frames
      sent.socket
    × (sent.channel.send ≡ ch'.recv)
    × AreMessages counting (λ a b. a ≡ b) counting_links socket socket json frames ms peer ch'
    × ((rest : List Framed) (closed : Error) (s : List (Bytes × Bytes))
        → dispatch store json (λ e. []) (ms ++ rest) closed s
          ≡ (put_all store json (λ e. []) (blob ∷ []) >>= λ _.
                dispatch store json (λ e. []) rest closed)
              s)
blobs_dispatched_example =
    blobs_dispatched counting (λ a b. a ≡ b) counting_links socket socket json store (λ e. []) peer
      (upload (codes "h") hi uploaded all_sent) (read_back, tt) (omega arith) refl
