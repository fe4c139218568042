-- ===== src/EndToEnd/Upload/Dispatched.antt =====
-- A sequence of uploads, and what dispatch of internal/adapters/transport/ws/server.go makes of it.
use claude_share.Base.{
  ℕ, ◌+◌, ◌^◌, ◌<◌, ◌≡◌, ◌≢◌, inl, inr, refl, true, Bytes, bytes_eq, List, [], ◌∷◌, ◌++◌, length,
  arith, Error, Result-cases, ok, All,
}
use claude_share.Base.Exec
use claude_share.Base.Exec.{Exec, ◌>>=◌, ◌>>◌}
use claude_share.Protocol.{Json, BlobData}
use claude_share.Secrets.Noise.{NoiseLib, Channel}
use claude_share.Ws.Conn.{Socket, Framed, Pending, read_message}
use claude_share.Ws.Conn.Linked.{
  Writes, none_written, Reads, none_read, IsCipherLink, Writes-append, Reads-append,
}
use claude_share.Ws.Client.{upload_blob}
use claude_share.Ws.Server.{Driven, dispatch, dispatch_message, reported}
use claude_share.EndToEnd.Upload.{IsReadBack, Sender, Receiver, receiver, blob_message, upload_one}

-- The message carries the blob.
abbrev pub IsBlobOf : Json → Framed → Bytes × Bytes → Type 0
IsBlobOf json m x =
    (b : Bytes) × (d : BlobData) × (m ≡ blob_message b x.1)
    × (json.blob.unmarshal b ≡ ok d)
    × (d.hash ≡ x.0)
    × (b ≢ [])

abbrev pub AreBlobsOf : Json → List Framed → List (Bytes × Bytes) → Type 0
AreBlobsOf json [] [] = Unit
AreBlobsOf json [] (x ∷ xs) = ⊥
AreBlobsOf json (m ∷ ms) [] = ⊥
AreBlobsOf json (m ∷ ms) (x ∷ xs) = IsBlobOf json m x × AreBlobsOf json ms xs

module _ (svc : Driven) (json : Json) (text_of : Error → Bytes) where
  -- The service is handed each blob in turn, until it refuses one.
  pub put_all : List (Bytes × Bytes) → Exec svc.State Unit
  put_all [] = Exec.pure tt
  put_all ((hash, content) ∷ rest) = do
    reported svc json text_of (svc.put_blob hash content)
    put_all rest

  dispatch_blob :
      (b hash content : Bytes) (d : BlobData) (s : svc.State)
      → json.blob.unmarshal b ≡ ok d
      → d.hash ≡ hash
      → b ≢ []
      → dispatch_message svc json text_of (blob_message b content) s
        ≡ (reported svc json text_of (svc.put_blob hash content) >> Exec.pure true) s
  unfolding dispatch_message bytes_eq
  dispatch_blob [] hash content d s u e n = absurd (n refl)
  dispatch_blob (x ∷ b) hash content d s u e n = rw (u, ← e) refl

  dispatch_blobs :
      (ms rest : List Framed) (xs : List (Bytes × Bytes)) (closed : Error) (s : svc.State)
      → AreBlobsOf json ms xs
      → dispatch svc json text_of (ms ++ rest) closed s
        ≡ (put_all xs >>= λ _. dispatch svc json text_of rest closed) s
  unfolding dispatch put_all
  dispatch_blobs [] rest [] closed s h = refl
  dispatch_blobs [] rest (x ∷ xs) closed s h = absurd h
  dispatch_blobs (m ∷ ms) rest [] closed s h = absurd h
  dispatch_blobs (m ∷ ms) rest ((hash, content) ∷ xs) closed s ((b, d, is, u, e, n), h) =
      let one : dispatch_message svc json text_of m s
          ≡ (reported svc json text_of (svc.put_blob hash content) >> Exec.pure true) s =
        rw is (dispatch_blob b hash content d s u e n) in
      elim (Result-cases (reported svc json text_of (svc.put_blob hash content) s).0) [
        | inl (x, q) ↦ rw (one, q) refl
        | inr (_, q) ↦
            rw (one, q)
              (dispatch_blobs ms rest xs closed
                (reported svc json text_of (svc.put_blob hash content) s).1 h)
      ]

module _ (lib : NoiseLib) (Linked : lib.Cipher → lib.Cipher → Type 0)
    (links : IsCipherLink lib Linked) (sock sock' : Socket) (json : Json) where
  abbrev Client : Type 0
  Client = Sender lib Linked links sock sock' json

  abbrev Server : Type 0
  Server = Receiver lib Linked links sock sock' json

  -- UploadBlob for each blob in turn, without an error.
  pub data Uploads : Client → List (Bytes × Bytes) → Client → Type 0 where
    all_sent : {c : Client} → Uploads c [] c
    upload :
        {c c' c'' : Client} {rest : List (Bytes × Bytes)} (hash content : Bytes)
        → upload_blob json hash content c ≡ (ok tt, c')
        → Uploads c' rest c''
        → Uploads c ((hash, content) ∷ rest) c''

  -- ReadMessage, called again and again, returns the messages.
  pub data ReadsMessages : Server → List Framed → Server → Type 0 where
    all_read : {c : Server} → ReadsMessages c [] c
    read_one :
        {c c' c'' : Server} {m : Framed} {rest : List Framed} (fuel : ℕ)
        → read_message fuel json c ≡ (ok m, c')
        → ReadsMessages c' rest c''
        → ReadsMessages c (m ∷ rest) c''

  -- The frames make the messages at the server, in whatever state its streams are.
  abbrev pub AreMessages : List Bytes → List Framed → Channel lib → Channel lib → Type 0
  AreMessages frames ms ch ch' =
      (so so' : sock'.State) (n : ℕ) (p : Pending)
      → Reads sock' so frames so'
      → (p' : Pending) × ReadsMessages (receiver lib Linked links sock sock' json ch so n p) ms
          (receiver lib Linked links sock sock' json ch' so' n p')

  AreMessages-nil : (ch : Channel lib) → AreMessages [] [] ch ch
  AreMessages-nil ch so so' n p none_read = (p, all_read)

  blobs_received :
      {c c' : Client} {xs : List (Bytes × Bytes)} (ch : Channel lib)
      → Uploads c xs c'
      → All (λ x. (n : ℕ) → IsReadBack json x.0 x.1 n) xs
      → c.out_seq + length xs < 2 ^ 64
      → Linked c.channel.send ch.recv
      → (frames : List Bytes) × (ms : List Framed) × (ch' : Channel lib) × Writes sock c.socket
          frames c'.socket
        × AreBlobsOf json ms xs
        × Linked c'.channel.send ch'.recv
        × AreMessages frames ms ch ch'
  blobs_received ch all_sent back small l = ([], [], ch, none_written, tt, l, AreMessages-nil ch)
  blobs_received {c} ch (upload hash content up more) back small l =
      let (b, frames, ch₁, writes, reads, filled, l₁, seq, is) =
        upload_one lib Linked links sock sock' json hash content c _ ch (back.0 c.out_seq)
          (omega arith) up l in
      let (frames', ms, ch', writes', blobs, l', are) =
        blobs_received ch₁ more back.1 (omega (arith, seq)) l₁ in
      (
        frames ++ frames',
        blob_message b content ∷ ms,
        ch',
        Writes-append sock writes writes',
        ((b, _, refl, reads, refl, filled), blobs),
        l',
        λ so so' n p r.
            let (so₁, first, last) = Reads-append sock' frames frames' r in
            let (fuel, p₁, run) = is so so₁ n p first in
            let (p', rest) = are so₁ so' n p₁ last in (p', read_one fuel run rest),
      )

  -- Blobs that the client uploaded without an error reach the service in order: over the frames
  -- that were written, ReadMessage at the server returns one message for each blob, and dispatch
  -- hands the service the hash and the content of each in turn, up to the first that it refuses,
  -- before it goes on with what comes after. This holds for linked cipher states, blobs that
  -- encoding/json reads back, and fewer than 2^64 streams in the session.
  pub blobs_dispatched :
      (svc : Driven) (text_of : Error → Bytes) {c c' : Client} {xs : List (Bytes × Bytes)}
      (ch : Channel lib)
      → Uploads c xs c'
      → All (λ x. (n : ℕ) → IsReadBack json x.0 x.1 n) xs
      → c.out_seq + length xs < 2 ^ 64
      → Linked c.channel.send ch.recv
      → (frames : List Bytes) × (ms : List Framed) × (ch' : Channel lib) × Writes sock c.socket
          frames c'.socket
        × Linked c'.channel.send ch'.recv
        × AreMessages frames ms ch ch'
        × ((rest : List Framed) (closed : Error) (s : svc.State)
            → dispatch svc json text_of (ms ++ rest) closed s
              ≡ (put_all svc json text_of xs >>= λ _. dispatch svc json text_of rest closed) s)
  blobs_dispatched svc text_of {xs = xs} ch up back small l =
      let (frames, ms, ch', writes, blobs, l', are) = blobs_received ch up back small l in
      (
        frames,
        ms,
        ch',
        writes,
        l',
        are,
        λ rest closed s. dispatch_blobs svc json text_of ms rest xs closed s blobs,
      )
