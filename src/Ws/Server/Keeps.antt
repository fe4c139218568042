-- ===== src/Ws/Server/Keeps.antt =====
-- dispatch of internal/adapters/transport/ws/server.go reaches its surroundings only through the
-- service and the notifier.
use claude_share.Base.{
  refl, ◌∙◌, inl, inr, Bool, true, Bytes, bytes_eq, List, [], ◌∷◌, if◌then◌else◌, Error, Result,
  Result-cases,
}
use claude_share.Base.Exec
use claude_share.Base.Exec.{
  Exec, LeavesAlone, pure-LeavesAlone, lift-LeavesAlone, attempt-LeavesAlone, bind-LeavesAlone,
  if-LeavesAlone, ◌>>=◌, ◌>>◌,
}
use claude_share.Domain.{Manifest}
use claude_share.Protocol.{Json, SessionStartData, BlobData, PromptData}
use claude_share.Protocol.MessageType
use claude_share.Ws.Conn.{Framed}
use claude_share.Ws.Server.{Driven, to_manifest, reported, dispatch_message, dispatch}

-- The calls of the service and of the notifier leave something about the state as it is.
pub record Keeps {A : Type 0} (svc : Driven) (view : svc.State → A) : Type 0 where
  pub start_session : (n : Bytes) (m : Manifest) → LeavesAlone view (svc.start_session n m)
  pub put_blob : (h c : Bytes) → LeavesAlone view (svc.put_blob h c)
  pub sync_done : LeavesAlone view svc.sync_done
  pub interrupt : LeavesAlone view svc.interrupt
  pub spawn_prompt : (t : Bytes) → LeavesAlone view (Exec.modify (svc.spawn_prompt t))
  pub sync_request : (hs : List Bytes) → LeavesAlone view (svc.sync_request hs)
  pub session_ready : (id : Bytes) → LeavesAlone view (svc.session_ready id)
  pub error : (t : Bytes) → LeavesAlone view (svc.error t)

module _ {V : Type 0} (svc : Driven) (view : svc.State → V) (k : Keeps svc view) (json : Json)
    (text_of : Error → Bytes) where
  reported-LeavesAlone :
      {A : Type 0} {m : Exec svc.State A}
      → LeavesAlone view m
      → LeavesAlone view (reported svc json text_of m)
  unfolding reported
  reported-LeavesAlone {m = m} h = record {
    same = λ s. elim (Result-cases (m s).0) [
      | inl (e, q) ↦ rw (q, reported) ((k.error (text_of e)).same (m s).1 ∙ h.same s)
      | inr (a, q) ↦ rw (q, reported) (h.same s)
    ];
  }

  -- A call, and then the next round.
  goes_on :
      {A : Type 0} {m : Exec svc.State A}
      → LeavesAlone view m
      → LeavesAlone view (m >>= λ _. Exec.pure true)
  goes_on {m = m} h =
      bind-LeavesAlone view {m = m} {f = λ _. Exec.pure true} h (λ _. pure-LeavesAlone view true)

  after_data :
      {A : Type 0} (r : Result A) (f : A → Exec svc.State Bool)
      → ((a : A) → LeavesAlone view (f a))
      → LeavesAlone view (Exec.lift r >>= f)
  after_data r f h = bind-LeavesAlone view {m = Exec.lift r} {f = f} (lift-LeavesAlone view r) h

  abbrev report : {A : Type 0} → Exec svc.State A → Exec svc.State A
  report m = reported svc json text_of m

  dispatch_message-LeavesAlone :
      (msg : Framed) → LeavesAlone view (dispatch_message svc json text_of msg)
  unfolding dispatch_message
  dispatch_message-LeavesAlone msg =
      if-LeavesAlone view (bytes_eq msg.env.typ MessageType.session_start)
        (after_data _
          (λ (d : SessionStartData). do
            missing ← report (svc.start_session d.project_name (to_manifest d.manifest))
            svc.sync_request missing
            Exec.pure true)
          (λ d.
            bind-LeavesAlone view
              {m = report (svc.start_session d.project_name (to_manifest d.manifest))}
              {f = λ missing. svc.sync_request missing >> Exec.pure true}
              (reported-LeavesAlone (k.start_session _ _))
              (λ missing. goes_on (k.sync_request missing))))
        (if-LeavesAlone view (bytes_eq msg.env.typ MessageType.blob)
          (after_data _
            (λ (d : BlobData). report (svc.put_blob d.hash msg.content) >>= λ _. Exec.pure true)
            (λ d. goes_on (reported-LeavesAlone (k.put_blob d.hash msg.content))))
          (if-LeavesAlone view (bytes_eq msg.env.typ MessageType.sync_done)
            (bind-LeavesAlone view {m = report svc.sync_done}
              {f = λ id. svc.session_ready id >> Exec.pure true} (reported-LeavesAlone k.sync_done)
              (λ id. goes_on (k.session_ready id)))
            (if-LeavesAlone view (bytes_eq msg.env.typ MessageType.prompt)
              (after_data _
                (λ (d : PromptData). Exec.modify (svc.spawn_prompt d.text) >>= λ _. Exec.pure true)
                (λ d. goes_on (k.spawn_prompt d.text)))
              (if-LeavesAlone view (bytes_eq msg.env.typ MessageType.interrupt)
                (goes_on {m = Exec.attempt (report svc.interrupt)}
                  (attempt-LeavesAlone view (reported-LeavesAlone k.interrupt)))
                (pure-LeavesAlone view _)))))

  pub dispatch-LeavesAlone :
      (msgs : List Framed) (closed : Error)
      → LeavesAlone view (dispatch svc json text_of msgs closed)
  unfolding dispatch
  dispatch-LeavesAlone [] closed = record { same = λ s. refl }
  dispatch-LeavesAlone (msg ∷ msgs) closed =
      bind-LeavesAlone view {m = dispatch_message svc json text_of msg}
        {f = λ go_on. if go_on then dispatch svc json text_of msgs closed else Exec.pure tt}
        (dispatch_message-LeavesAlone msg)
        (λ go_on.
          if-LeavesAlone view go_on (dispatch-LeavesAlone msgs closed) (pure-LeavesAlone view tt))
