-- ===== src/Ws/Conn/Linked.antt =====
-- Two connections of internal/adapters/transport/ws/codec.go whose channels are those of
-- internal/adapters/crypto/noise/noise.go: what one end writes is what the other reads.
use claude_share.Base.{◌≡◌, refl, ap, sym, ◌∙◌, Bytes, List, [], ◌∷◌, ◌++◌, Result, ok}
use claude_share.Base.Exec.{bind-eq-ok, bind-after}
use claude_share.Secrets.Noise.{NoiseLib, Channel, seal, unseal}
use claude_share.Ws.Conn.{SecureChannel, Socket, Conn, write_record, on_channel, on_socket}
use claude_share.Ws.Conn.Send.{write_all}
use claude_share.Ws.Conn.RoundTrip.{Yields, nothing, frame}

-- The Noise channel as the port that a connection takes.
abbrev pub noise_channel : NoiseLib → SecureChannel
noise_channel lib = record { State = Channel lib; seal = seal lib; unseal = unseal lib }

module _ {chan : SecureChannel} {sock : Socket} where
  write_record-out_seq :
      (rec : Bytes) (c : Conn chan sock) → (write_record rec c).1.out_seq ≡ c.out_seq
  unfolding write_record on_channel on_socket
  write_record-out_seq rec c =
      bind-after (λ (d : Conn chan sock). d.out_seq ≡ c.out_seq) (on_channel (chan.seal rec))
        (λ x. on_socket (sock.write x)) c refl (λ x h. refl)

  -- Writing takes no stream id.
  pub write_all-out_seq :
      (recs : List Bytes) (c : Conn chan sock) → (write_all recs c).1.out_seq ≡ c.out_seq
  unfolding write_all
  write_all-out_seq [] c = refl
  write_all-out_seq (rec ∷ recs) c =
      bind-after (λ (d : Conn chan sock). d.out_seq ≡ c.out_seq) (write_record rec)
        (λ _. write_all recs) c (write_record-out_seq rec c)
        (λ _ _. write_all-out_seq recs (write_record rec c).1 ∙ write_record-out_seq rec c)

-- The frames that are written to a socket, or read from one, in order.
module _ (sock : Socket) where
  pub data Writes : sock.State → List Bytes → sock.State → Type 0 where
    none_written : {so : sock.State} → Writes so [] so
    written :
        {so so' so'' : sock.State} {rest : List Bytes} (sealed : Bytes)
        → sock.write sealed so ≡ (ok tt, so')
        → Writes so' rest so''
        → Writes so (sealed ∷ rest) so''

  pub data Reads : sock.State → List Bytes → sock.State → Type 0 where
    none_read : {so : sock.State} → Reads so [] so
    read :
        {so so' so'' : sock.State} {rest : List Bytes} (sealed : Bytes)
        → sock.read so ≡ (ok sealed, so')
        → Reads so' rest so''
        → Reads so (sealed ∷ rest) so''

-- What the Noise library promises of two cipher states that are linked: what one encrypts the
-- other decrypts, and they stay linked.
abbrev pub IsCipherLink : (lib : NoiseLib) → (lib.Cipher → lib.Cipher → Type 0) → Type 0
IsCipherLink lib Linked =
    (a a' b : lib.Cipher) (plain sealed : Bytes)
    → Linked a b
    → lib.encrypt plain a ≡ (ok sealed, a')
    → (b' : lib.Cipher) × (lib.decrypt sealed b ≡ (ok plain, b')) × Linked a' b'

Reads-cons :
    {sock : Socket} {so so' : sock.State} {sealed : Bytes} {rest : List Bytes}
    → Reads sock so (sealed ∷ rest) so'
    → (so₁ : sock.State) × (sock.read so ≡ (ok sealed, so₁)) × Reads sock so₁ rest so'
Reads-cons (read {so' = so₁} sealed got more) = (so₁, got, more)

module _ (lib : NoiseLib) (Linked : lib.Cipher → lib.Cipher → Type 0)
    (links : IsCipherLink lib Linked) (sock sock' : Socket) where
  abbrev Sender : Type 0
  Sender = Conn (noise_channel lib) sock

  -- The receiver reads the frames as the plain texts, and the two ends stay linked.
  abbrev pub IsReceived : List Bytes → List Bytes → Channel lib → Channel lib → Channel lib → Type 0
  IsReceived recs frames sender' ch ch' =
      Linked sender'.send ch'.recv
      × (ch'.send ≡ ch.send)
      × ((so so' : sock'.State)
          → Reads sock' so frames so'
          → Yields (noise_channel lib) sock' ch so recs ch' so')

  write_record_lem :
      (rec : Bytes) (c c' : Sender)
      → write_record rec c ≡ (ok tt, c')
      → (sealed : Bytes) × (a' : lib.Cipher) × (lib.encrypt rec c.channel.send ≡ (ok sealed, a'))
        × (sock.write sealed c.socket ≡ (ok tt, c'.socket))
        × (c'.channel.send ≡ a')
  unfolding write_record on_channel on_socket seal
  write_record_lem rec c c' h =
      let (sealed, q, r) =
        bind-eq-ok (on_channel (seal lib rec)) (λ x. on_socket (sock.write x)) c c' tt h in
      (
        sealed,
        (lib.encrypt rec c.channel.send).1,
        (λ i. (q i, (lib.encrypt rec c.channel.send).1)),
        (λ i. ((r i).0, (r i).1.socket)),
        sym (ap (λ (x : Result (Unit {0}) × Sender). x.1.channel.send) r),
      )

  unseal_lem :
      (sealed plain : Bytes) (b' : lib.Cipher) (ch : Channel lib)
      → lib.decrypt sealed ch.recv ≡ (ok plain, b')
      → unseal lib sealed ch ≡ (ok plain, record ch { recv = b' })
  unfolding unseal
  unseal_lem sealed plain b' ch h = λ i. ((h i).0, record ch { recv = (h i).1 })

  Reads-nil :
      {ch : Channel lib} {so so' : sock'.State}
      → Reads sock' so [] so'
      → Yields (noise_channel lib) sock' ch so [] ch so'
  Reads-nil none_read = nothing

  -- Records that were written without an error: the frames that were sent decrypt at the other end,
  -- in order, to the records.
  pub write_all-IsReceived :
      (recs : List Bytes) (c c' : Sender) (ch : Channel lib)
      → write_all recs c ≡ (ok tt, c')
      → Linked c.channel.send ch.recv
      → (frames : List Bytes) × (ch' : Channel lib) × Writes sock c.socket frames c'.socket
        × IsReceived recs frames c'.channel ch ch'
  unfolding write_all
  write_all-IsReceived [] c c' ch h l =
      let same : c ≡ c' = ap (λ (x : Result (Unit {0}) × Sender). x.1) h in
      rw (← same) ([], ch, none_written, (l, refl, λ so so' r. Reads-nil r))
  write_all-IsReceived (rec ∷ recs) c c' ch h l =
      let c₁ = (write_record rec c).1 in
      let (_, q, rest) = bind-eq-ok (write_record rec) (λ _. write_all recs) c c' tt h in
      let (sealed, a', enc, wrote, is) = write_record_lem rec c c₁ (λ i. (q i, c₁)) in
      let (b', dec, l') = links c.channel.send a' ch.recv rec sealed l enc in
      let ch₁ : Channel lib = record ch { recv = b' } in
      let (frames, ch', writes, (linked, kept, yields)) =
        write_all-IsReceived recs c₁ c' ch₁ rest (rw is l') in
      (
        sealed ∷ frames,
        ch',
        written sealed wrote writes,
        (
          linked,
          kept,
          λ so so' r.
              let (so₁, got, more) = Reads-cons r in
              frame sealed got (unseal_lem sealed rec b' ch dec) (yields so₁ so' more),
        ),
      )

module _ (sock : Socket) where
  pub Writes-append :
      {so so' so'' : sock.State} {xs ys : List Bytes}
      → Writes sock so xs so'
      → Writes sock so' ys so''
      → Writes sock so (xs ++ ys) so''
  Writes-append none_written k = k
  Writes-append (written sealed e w) k = written sealed e (Writes-append w k)

  pub Reads-append :
      (xs ys : List Bytes) {so so'' : sock.State}
      → Reads sock so (xs ++ ys) so''
      → (so' : sock.State) × Reads sock so xs so' × Reads sock so' ys so''
  Reads-append [] ys {so} r = (so, none_read, r)
  Reads-append (x ∷ xs) ys r =
      let (so₁, got, more) = Reads-cons r in
      let (so', first, last) = Reads-append xs ys more in (so', read x got first, last)
