-- ===== src/Ws/Conn/Receive.antt =====
-- The assembly of content streams in `ReadMessage` of internal/adapters/transport/ws/codec.go, on
-- the decoded records.
use claude_share.Base.{
  ℕ, ◌≡◌, ◌≢◌, ◌⊎◌, refl, ap, ◌∙◌, sym, inr, true, false, Bytes, Option, none, some, List, [], ◌∷◌,
  ◌++◌, ◌==◌, if◌then◌else◌, arith, Result, ok, err, All,
}
use claude_share.Base.Dict
use claude_share.Base.Dict.{Dict, nat_eq, get-put, get-delete}
use claude_share.Base.Exec.{Exec, pure, continue, ◌>>=◌, bind-eq-ok}
use claude_share.Protocol.{Envelope, Json, Chunk, Record, envelope_record, chunk_record}
use claude_share.Ws.Conn.{Asm, Framed, Pending, stream_id_of, on_record, announce, extend}
use claude_share.Ws.Conn.Chunks.{IsEnded}

abbrev pub stream_message : Asm → Bytes → Framed
stream_message a content = record { env = a.env; content = a.buf ++ content; has_content = true }

abbrev pub cons_message : Option Framed → List Framed → List Framed
cons_message none ms = ms
cons_message (some m) ms = m ∷ ms

-- The messages that a sequence of records makes, over any number of calls of `ReadMessage`.
unfoldable pub collect : Json → List Record → Exec Pending (List Framed)
collect json [] = pure []
collect json (r ∷ rs) = do o ← on_record json r; ms ← collect json rs; pure (cons_message o ms)

-- The chunks of one stream, in the order of their arrival.
abbrev pub chunks_of : ℕ → List Record → List Chunk
chunks_of sid [] = []
chunks_of sid (envelope_record env ∷ rs) = chunks_of sid rs
chunks_of sid (chunk_record c ∷ rs) =
    let rest = chunks_of sid rs in if c.stream_id == sid then c ∷ rest else rest

-- The record is no envelope that announces the stream.
abbrev pub IsNoStart : Json → ℕ → Record → Type 0
IsNoStart json sid (envelope_record env) = stream_id_of json env ≢ ok sid
IsNoStart json sid (chunk_record c) = Unit

abbrev pub Has : Framed → List Framed → Type 0
Has m [] = ⊥
Has m (x ∷ xs) = (m ≡ x) ⊎ Has m xs

module _ (json : Json) (sid : ℕ) where
  announce_keeps :
      (env : Envelope) (s : ℕ) (p : Pending)
      → s ≢ sid
      → Dict.get sid (announce env s p).1 ≡ Dict.get sid p
  unfolding announce
  announce_keeps env s p h = ground (arith, get-put s sid (record { env = env; buf = [] }) p)

  extend_keeps :
      (c : Chunk) (o : Option Asm) (p : Pending)
      → c.stream_id ≢ sid
      → Dict.get sid (extend c o p).1 ≡ Dict.get sid p
  unfolding extend
  extend_keeps c none p h = refl
  extend_keeps c (some a) p h = ground (
    arith,
    get-delete c.stream_id sid p,
    get-put c.stream_id sid (record a { buf = a.buf ++ c.payload }) p,
  )

  -- A record of another stream does not touch the stream, whether it is accepted or not.
  pub on_record_keeps :
      (r : Record) (p : Pending)
      → IsNoStart json sid r
      → chunks_of sid (r ∷ []) ≡ []
      → Dict.get sid (on_record json r p).1 ≡ Dict.get sid p
  on_record_keeps (envelope_record env) p h n =
      unfold on_record in
      elim (stream_id_of json env)
          as (λ r. r ≢ ok sid → Dict.get sid (continue r (announce env) p).1 ≡ Dict.get sid p) [
            | ok s ↦ λ k. announce_keeps env s p (λ e. k (ap ok e))
            | err e ↦ λ k. refl
          ]
        h
  on_record_keeps (chunk_record c) p h n =
      unfold on_record in extend_keeps c (Dict.get c.stream_id p) p (ground arith)

  pub collect_step :
      (r : Record) (rs : List Record) (p p' : Pending) (ms : List Framed)
      → collect json (r ∷ rs) p ≡ (ok ms, p')
      → (o : Option Framed) × (ms' : List Framed) × ((on_record json r p).0 ≡ ok o)
        × (collect json rs (on_record json r p).1 ≡ (ok ms', p'))
        × (ms ≡ cons_message o ms')
  unfolding collect
  collect_step r rs p p' ms h =
      let (o, eo, rest) =
        bind-eq-ok (on_record json r) (λ x. collect json rs >>= λ y. pure (cons_message x y)) p p'
          ms h in
      let (ms', em, last) =
        bind-eq-ok (collect json rs) (λ y. pure (cons_message o y)) (on_record json r p).1 p' ms
          rest in
      (o, ms', eo, (λ i. (em i, (last i).1)), ground arith)

  chunks_of-cons :
      (r : Record) (rs : List Record)
      → chunks_of sid (r ∷ rs) ≡ []
      → (chunks_of sid (r ∷ []) ≡ []) × (chunks_of sid rs ≡ [])
  chunks_of-cons (envelope_record env) rs h = (refl, h)
  chunks_of-cons (chunk_record c) rs h = ground arith

  pub collect_keeps :
      (rs : List Record) (p p' : Pending) (ms : List Framed)
      → All (IsNoStart json sid) rs
      → chunks_of sid rs ≡ []
      → collect json rs p ≡ (ok ms, p')
      → Dict.get sid p' ≡ Dict.get sid p
  collect_keeps [] p p' ms a n h =
      unfold collect in ap (λ (q : Result (List Framed) × Pending). Dict.get sid q.1) (sym h)
  collect_keeps (r ∷ rs) p p' ms a n h =
      let (o, ms', eo, rest, em) = collect_step r rs p p' ms h in
      let (n0, n1) = chunks_of-cons r rs n in
      collect_keeps rs (on_record json r p).1 p' ms' a.1 n1 rest ∙ on_record_keeps r p a.0 n0

  pub final_chunk :
      (c : Chunk) (p : Pending) (a : Asm)
      → c.stream_id ≡ sid
      → Dict.get sid p ≡ some a
      → c.final ≡ true
      → on_record json (chunk_record c) p
        ≡ (ok (some (stream_message a c.payload)), Dict.delete sid p)
  unfolding on_record
  final_chunk c p a e h f = rw (e, h, f)

  pub more_chunk :
      (c : Chunk) (p : Pending) (a : Asm)
      → c.stream_id ≡ sid
      → Dict.get sid p ≡ some a
      → c.final ≡ false
      → on_record json (chunk_record c) p
        ≡ (ok none, Dict.put sid (record a { buf = a.buf ++ c.payload }) p)
  unfolding on_record
  more_chunk c p a e h f = rw (e, h, f)

pub Has-cons_message :
    (m : Framed) (o : Option Framed) (ms : List Framed) → Has m ms → Has m (cons_message o ms)
Has-cons_message m none ms h = h
Has-cons_message m (some x) ms h = inr h

pub IsEnded-final : (c : Chunk) (cs : List Chunk) → c.final ≡ true → IsEnded (c ∷ cs) → cs ≡ []
IsEnded-final c [] f e = refl
IsEnded-final c (d ∷ cs) f e = cc (f, e.0)

pub IsEnded-more : (c : Chunk) (cs : List Chunk) → c.final ≡ false → IsEnded (c ∷ cs) → IsEnded cs
IsEnded-more c [] f e = cc (f, e)
IsEnded-more c (d ∷ cs) f e = e.1
