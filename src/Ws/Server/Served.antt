-- ===== src/Ws/Server/Served.antt =====
-- dispatch of internal/adapters/transport/ws/server.go over a sequence of messages.
use claude_share.Base.{
  inl, inr, ◌≡◌, refl, true, false, Bytes, List, [], ◌∷◌, ◌++◌, Error, Result-cases, ok, bytes_eq,
}
use claude_share.Protocol.{Json}
use claude_share.Protocol.MessageType
use claude_share.Ws.Conn.{Framed}
use claude_share.Ws.Server.{Driven, dispatch, dispatch_message}

module _ (svc : Driven) (json : Json) (text_of : Error → Bytes) where
  end_message :
      (msg : Framed) (s : svc.State)
      → msg.env.typ ≡ MessageType.session_end
      → dispatch_message svc json text_of msg s ≡ (ok false, s)
  unfolding dispatch_message bytes_eq
  end_message msg s h = rw h refl

  -- Nothing that comes after a SessionEnd is handled, and the session ends without an error there.
  pub dispatch_ended :
      (before after : List Framed) (msg : Framed) (closed closed' : Error) (s : svc.State)
      → msg.env.typ ≡ MessageType.session_end
      → dispatch svc json text_of (before ++ msg ∷ after) closed s
        ≡ dispatch svc json text_of (before ++ msg ∷ []) closed' s
  unfolding dispatch
  dispatch_ended [] after msg closed closed' s h = rw (end_message msg s h) refl
  dispatch_ended (m ∷ before) after msg closed closed' s h =
      elim (Result-cases (dispatch_message svc json text_of m s).0) [
        | inl (e, q) ↦ rw q refl
        | inr (true, q) ↦ rw q (
            dispatch_ended before after msg closed closed' (dispatch_message svc json text_of m s).1
              h)
        | inr (false, q) ↦ rw q refl
      ]
