-- ===== src/Session.antt =====
-- internal/core/app/session.go: the service of one client connection. The ports of
-- internal/core/ports/ports.go are parameters; `Outside` is the state of all that is behind them.
-- The event pump runs beside HandlePrompt; the events that it takes in between are an argument.
pub mod Missing
pub mod Turn
pub mod Lifecycle
pub mod Reachable
pub mod Answered
use claude_share.Base.{
  Bool, true, false, Bytes, bytes_eq, Option, none, some, List, [], ◌∷◌, ◌++◌, if◌then◌else◌, Error,
  Result, ok, err, not_ready, cancelled, remove_workspace, joined_one, joined_two, nil_dereference,
}
use claude_share.Base.Dict
use claude_share.Base.Dict.{Dict, bytes_key}
use claude_share.Base.Exec.{Exec, pure, fail, lift, gets, attempt, modify, ◌>>=◌, ◌>>◌}
use claude_share.Domain.{
  Manifest, FileEntry, FileChange, AgentEvent, TurnResult, agent_result, change_delete,
}
use claude_share.Fsutil.Diff.{diff}

-- `Deps`, with the methods of the ports.
pub record Deps : Type 1 where
  pub Outside : Type 0
  pub Workspace : Type 0
  pub Agent : Type 0
  -- Blobs
  pub has : Bytes → Exec Outside Bool
  pub put : Bytes → Bytes → Exec Outside Unit
  -- NewID and NewWorkspace
  pub new_id : Outside → Bytes × Outside
  pub new_workspace : Bytes → Exec Outside Workspace
  -- Workspace
  pub dir : Workspace → Bytes
  pub materialize : Workspace → Manifest → Exec Outside Unit
  pub snapshot : Workspace → Exec Outside Manifest
  pub read_file : Workspace → Bytes → Exec Outside Bytes
  pub remove : Workspace → Exec Outside Unit
  -- AgentRunner and AgentSession
  pub start : Bytes → Bytes → Exec Outside Agent
  pub send : Agent → Bytes → Exec Outside Unit
  pub interrupt : Agent → Exec Outside Unit
  pub close_agent : Agent → Exec Outside Unit
  -- Notifier
  pub stream_event : AgentEvent → Exec Outside Unit
  pub file_change : FileChange → Bytes → Exec Outside Unit
  pub turn_done : TurnResult → Exec Outside Unit

-- `Service`, and what is behind its ports. `signal` is the channel turnDone, of capacity one, and
-- `pumping` says whether the goroutine of the pump runs.
pub record Service (p : Deps) : Type 0 where
  pub session_id : Bytes
  pub manifest : Manifest
  pub ws : Option p.Workspace
  pub agent : Option p.Agent
  pub pre_turn : Manifest
  pub signal : Option (Result (Unit {0}))
  pub pumping : Bool
  pub outside : p.Outside

-- The events that the pump takes between the steps of one HandlePrompt.
pub record Schedule : Type 0 where
  pub before_drain : List AgentEvent
  pub before_send : List AgentEvent
  pub before_wait : List AgentEvent

-- The zero TurnResult.
abbrev pub no_result : TurnResult
no_result = record { is_error = false; cost_usd = 0; text = []; num_turns = 0 }

module _ (p : Deps) where
  abbrev call : {A : Type 0} → Exec p.Outside A → Exec (Service p) A
  call m s = let (r, o) = m s.outside in (r, record s { outside = o })

  unfoldable pub new_service : p.Outside → Service p
  new_service o = record {
    session_id = [];
    manifest = record { entries = [] };
    ws = none;
    agent = none;
    pre_turn = record { entries = [] };
    signal = none;
    pumping = false;
    outside = o;
  }

  -- The loop of StartSession.
  missing_loop : List FileEntry → Dict Bytes Bool → List Bytes → Exec p.Outside (List Bytes)
  missing_loop [] seen missing = pure missing
  missing_loop (e ∷ es) seen missing = elim (Dict.get e.hash seen) [
    | some _ ↦ missing_loop es seen missing
    | none ↦ do
      found ← p.has e.hash
      missing_loop es (Dict.put e.hash true seen)
          (if found then missing else missing ++ e.hash ∷ [])
  ]

  unfoldable pub start_session : Bytes → Manifest → Exec (Service p) (List Bytes)
  unfolding missing_loop
  start_session project_name manifest = do
    modify λ s. record s { manifest = manifest }
    call (missing_loop manifest.entries [] [])

  unfoldable pub put_blob : Bytes → Bytes → Exec (Service p) Unit
  put_blob hash content = call (p.put hash content)

  -- SyncDone when no agent runs.
  bring_up : Exec (Service p) Bytes
  bring_up = do
    modify λ s. let (id, o) = p.new_id s.outside in record s { session_id = id; outside = o }
    id ← gets λ s. s.session_id
    ws ← call (p.new_workspace id)
    modify λ s. record s { ws = some ws }
    manifest ← gets λ s. s.manifest
    call (p.materialize ws manifest)
    agent ← call (p.start id (p.dir ws))
    modify λ s. record s { agent = some agent; pumping = true }
    pure id

  unfoldable pub sync_done : Exec (Service p) Bytes
  unfolding bring_up
  sync_done s = elim s.agent [ some _ ↦ (ok s.session_id, s) | none ↦ bring_up s ]

  -- The content that is pushed with a change.
  abbrev content_of : p.Workspace → FileChange → Exec p.Outside Bytes
  content_of ws c = if bytes_eq c.op change_delete then pure [] else p.read_file ws c.path

  -- The loop of finishTurn.
  push_changes : p.Workspace → List FileChange → Exec p.Outside Unit
  push_changes ws [] = pure tt
  push_changes ws (c ∷ cs) = do
    content ← content_of ws c
    p.file_change c content
    push_changes ws cs

  abbrev result_or_zero : Option TurnResult → TurnResult
  result_or_zero none = no_result
  result_or_zero (some r) = r

  unfoldable pub finish_turn : p.Workspace → Option TurnResult → Exec (Service p) Unit
  unfolding push_changes
  finish_turn ws res = do
    after ← call (p.snapshot ws)
    pre_turn ← gets λ s. s.pre_turn
    call (push_changes ws (diff pre_turn after))
    modify λ s. record s { pre_turn = after }
    call (p.turn_done (result_or_zero res))

  -- `select { case s.turnDone <- err: default: }`
  abbrev offer : Result (Unit {0}) → Service p → Service p
  offer r s = elim s.signal [ some _ ↦ s | none ↦ record s { signal = some r } ]

  -- One round of `pump`. A result without a workspace is a call on a nil interface, which ends the
  -- program.
  unfoldable pub pump_event : AgentEvent → Exec (Service p) Unit
  unfolding finish_turn
  pump_event ev = do
    sent ← attempt (call (p.stream_event ev))
    elim sent [
      | err _ ↦ modify λ s. record s { pumping = false }
      | ok _ ↦
          if bytes_eq ev.kind agent_result
          then (do
            ws ← gets λ s. s.ws
            elim ws [
              | none ↦ fail nil_dereference
              | some ws ↦ do done ← attempt (finish_turn ws ev.result); modify (offer done)
            ])
          else pure tt
    ]

  unfoldable pub pump : List AgentEvent → Exec (Service p) Unit
  unfolding pump_event
  pump [] = pure tt
  pump (ev ∷ evs) =
      λ s. let rest = pump evs in if s.pumping then (pump_event ev >>= λ _. rest) s else (ok tt, s)

  -- The last `select`: a signal is taken; without one the call returns when its context is
  -- cancelled. With both, Go takes either; `prefer_signal` says which.
  unfoldable pub await_turn : Bool → Exec (Service p) Unit
  await_turn prefer_signal s = elim s.signal [
    | none ↦ (err cancelled, s)
    | some r ↦ if prefer_signal then (r, record s { signal = none }) else (err cancelled, s)
  ]

  unfoldable pub handle_prompt : Bytes → Schedule → Bool → Exec (Service p) Unit
  unfolding pump await_turn
  handle_prompt text events prefer_signal s₀ = elim s₀.agent [
    | none ↦ (err not_ready, s₀)
    | some agent ↦ elim s₀.ws [
      | none ↦ (err not_ready, s₀)
      | some ws ↦
          (do
            snap ← call (p.snapshot ws)
            modify λ s. record s { pre_turn = snap }
            pump events.before_drain
            modify λ s. record s { signal = none }
            pump events.before_send
            call (p.send agent text)
            pump events.before_wait
            await_turn prefer_signal)
            s₀
    ]
  ]

  unfoldable pub interrupt : Exec (Service p) Unit
  interrupt s = elim s.agent [ none ↦ (ok tt, s) | some a ↦ call (p.interrupt a) s ]

  -- errors.Join of the errors of the two calls.
  abbrev pub join : Result (Unit {0}) → Result (Unit {0}) → Result (Unit {0})
  join (ok _) (ok _) = ok tt
  join (ok _) (err e) = err (joined_one (remove_workspace e))
  join (err e) (ok _) = err (joined_one e)
  join (err e) (err f) = err (joined_two e (remove_workspace f))

  close_if : Option p.Agent → Exec p.Outside Unit
  close_if none = pure tt
  close_if (some a) = p.close_agent a

  remove_if : Option p.Workspace → Exec p.Outside Unit
  remove_if none = pure tt
  remove_if (some ws) = p.remove ws

  unfoldable pub close : Exec (Service p) Unit
  unfolding close_if remove_if
  close = do
    agent ← gets λ s. s.agent
    ws ← gets λ s. s.ws
    modify λ s. record s { agent = none; ws = none }
    closed ← attempt (call (close_if agent))
    removed ← attempt (call (remove_if ws))
    lift (join closed removed)
