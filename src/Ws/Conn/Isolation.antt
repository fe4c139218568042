-- ===== src/Ws/Conn/Isolation.antt =====
-- Interleaved streams: the assembly of one content stream among the records of others.
use claude_share.Base.{
  ℕ, ◌≡◌, refl, ap, ◌∙◌, inl, inr, Option, none, some, List, [], ◌∷◌, ◌++◌, ◌==◌, ==_iff, arith,
  Bool-cases, Result, ok, append_assoc, append-nil, All,
}
use claude_share.Base.Dict
use claude_share.Base.Dict.{Dict, nat_eq, get-put_self, get-delete}
use claude_share.Protocol.{Json, Chunk, Record, envelope_record, chunk_record}
use claude_share.Ws.Conn.{Asm, Framed, Pending, on_record}
use claude_share.Ws.Conn.Chunks.{payloads, IsEnded}
use claude_share.Ws.Conn.Receive.{
  stream_message, collect, chunks_of, IsNoStart, Has, on_record_keeps, collect_step, collect_keeps,
  final_chunk, more_chunk, Has-cons_message, IsEnded-final, IsEnded-more,
}

module _ {q : Result (Option Framed) × Pending} {r : Result (Option Framed)} {t : Pending} where
  result_of : q ≡ (r, t) → q.0 ≡ r
  result_of h = ap (λ (x : Result (Option Framed) × Pending). x.0) h

  pending_of : (sid : ℕ) → q ≡ (r, t) → Dict.get sid q.1 ≡ Dict.get sid t
  pending_of sid h = ap (λ (x : Result (Option Framed) × Pending). Dict.get sid x.1) h

get-delete_self : (sid : ℕ) (p : Pending) → Dict.get sid (Dict.delete sid p) ≡ none
get-delete_self sid p = ground (arith, get-delete sid sid p)

module _ (json : Json) (sid : ℕ) where
  abbrev pub Delivered : Asm → List Chunk → List Framed → Pending → Type 0
  Delivered a cs ms p' = Has (stream_message a (payloads cs)) ms × (Dict.get sid p' ≡ none)

  -- A stream that was announced is delivered whole, whatever stands between its chunks: if its
  -- chunks among the records end with the only final one, no other envelope announces its id, and
  -- the records are accepted, then one of the messages is the announcing envelope with the bytes
  -- of the chunks in order, and the stream is no longer pending.
  pub stream-Delivered :
      (rs : List Record) (p p' : Pending) (ms : List Framed) (a : Asm)
      → All (IsNoStart json sid) rs
      → IsEnded (chunks_of sid rs)
      → Dict.get sid p ≡ some a
      → collect json rs p ≡ (ok ms, p')
      → Delivered a (chunks_of sid rs) ms p'
  stream-Delivered [] p p' ms a n e h c = absurd e
  stream-Delivered (envelope_record env ∷ rs) p p' ms a n e h c =
      let (o, ms', eo, rest, em) = collect_step json sid (envelope_record env) rs p p' ms c in
      let (found, gone) =
        stream-Delivered rs (on_record json (envelope_record env) p).1 p' ms' a n.1 e
          (on_record_keeps json sid (envelope_record env) p n.0 refl ∙ h) rest in
      (rw em (Has-cons_message _ o ms' found), gone)
  stream-Delivered (chunk_record k ∷ rs) p p' ms a n e h c =
      let (o, ms', eo, rest, em) = collect_step json sid (chunk_record k) rs p p' ms c in
      elim (Bool-cases (k.stream_id == sid)) [
        | inr other ↦
            let (found, gone) =
              stream-Delivered rs (on_record json (chunk_record k) p).1 p' ms' a n.1 (rw other at e)
                (on_record_keeps json sid (chunk_record k) p tt (rw other) ∙ h) rest in
            rw other (rw em (Has-cons_message _ o ms' found), gone)
        | inl mine ↦ rw mine (elim (Bool-cases k.final) [
          | inl last ↦
              let alone : chunks_of sid rs ≡ [] =
                IsEnded-final k (chunks_of sid rs) last (rw mine at e) in
              let done = final_chunk json sid k p a ((==_iff k.stream_id sid).0 mine) h last in
              let got : o ≡ some (stream_message a k.payload) = cc (eo, result_of done) in
              rw alone (
                rw (em, got, append-nil k.payload) (inl refl),
                collect_keeps json sid rs _ p' ms' n.1 alone rest
                    ∙ (pending_of sid done ∙ get-delete_self sid p),
              )
          | inr more ↦
              let step = more_chunk json sid k p a ((==_iff k.stream_id sid).0 mine) h more in
              let (found, gone) =
                stream-Delivered rs (on_record json (chunk_record k) p).1 p' ms'
                  (record a { buf = a.buf ++ k.payload }) n.1
                  (IsEnded-more k (chunks_of sid rs) more (rw mine at e))
                  (pending_of sid step ∙ get-put_self sid _ p) rest in
              (
                rw (em, ← append_assoc a.buf k.payload (payloads (chunks_of sid rs)))
                    (Has-cons_message _ o ms' found),
                gone,
              )
        ])
      ]
