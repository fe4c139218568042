-- ===== src/ClientApp.antt =====
-- internal/core/clientapp/clientapp.go: the client of one session. The transport, the project and
-- the renderer are parameters. The goroutine that reads messages runs beside Run; the messages
-- that it handles while Run waits are an argument.
pub mod Upload
pub mod Inbound
pub mod Converges
use claude_share.Base.{
  Bool, true, false, Bytes, bytes_eq, Option, none, some, List, [], ◌∷◌, map, if◌then◌else◌, ◌%◌,
  ◌^◌, ℕ, Error, Result, ok, err, unknown_hash, cancelled, nil_dereference,
}
use claude_share.Base.Dict
use claude_share.Base.Dict.{Dict, bytes_key}
use claude_share.Base.Exec.{Exec, pure, fail, lift, gets, attempt, modify, ◌>>=◌, ◌>>◌}
use claude_share.Domain.{Manifest, FileEntry, FileChange}
use claude_share.Protocol.{
  FileEntryDto, SessionReadyData, SyncRequestData, StreamEventData, FileChangeData, TurnDoneData,
  ErrorData,
}
use claude_share.Protocol.MessageType

-- `ServerMessage`; a pointer is an option.
pub record ServerMessage : Type 0 where
  pub typ : Bytes
  pub session_ready : Option SessionReadyData
  pub sync_request : Option SyncRequestData
  pub stream_event : Option StreamEventData
  pub file_change : Option FileChangeData
  pub content : Bytes
  pub turn_done : Option TurnDoneData
  pub error : Option ErrorData

-- The interfaces Transport, Project and Renderer, and strings.TrimSpace. A renderer that gets a nil
-- pointer may follow it.
pub record Ports : Type 1 where
  pub Outside : Type 0
  pub session_start : Bytes → List FileEntryDto → Exec Outside Unit
  pub upload_blob : Bytes → Bytes → Exec Outside Unit
  pub sync_done : Exec Outside Unit
  pub prompt : Bytes → Exec Outside Unit
  pub session_end : Exec Outside Unit
  pub manifest : Exec Outside Manifest
  pub read_file : Bytes → Exec Outside Bytes
  pub apply : FileChange → Bytes → Exec Outside Unit
  pub show_event : Option StreamEventData → Exec Outside Unit
  pub show_change : Bytes → Bytes → Outside → Outside
  pub show_turn : Option TurnDoneData → Exec Outside Unit
  pub show_failure : Bytes → Error → Outside → Outside
  pub show_error : Bytes → Outside → Outside
  pub trim_space : Bytes → Bytes

-- The channels of Run, each of capacity one, and what is behind the ports.
pub record App (p : Ports) : Type 0 where
  pub sync_req : Option (Option SyncRequestData)
  pub ready : Option Bytes
  pub turn_done : Bool
  pub read_err : Option Error
  pub reading : Bool
  pub outside : p.Outside

-- The index that `toDTO` makes: the first path of each hash.
hash_index : List FileEntry → Dict Bytes Bytes → Dict Bytes Bytes
hash_index [] by_hash = by_hash
hash_index (e ∷ es) by_hash =
    hash_index es
      (elim (Dict.get e.hash by_hash) [ some _ ↦ by_hash | none ↦ Dict.put e.hash e.path by_hash ])

unfoldable pub to_dto : Manifest → List FileEntryDto × Dict Bytes Bytes
unfolding hash_index
to_dto m = (
  map (λ (e : FileEntry). record { path = e.path; hash = e.hash; size = e.size; mode = e.mode })
      m.entries,
  hash_index m.entries [],
)

module _ (p : Ports) where
  abbrev call : {A : Type 0} → Exec p.Outside A → Exec (App p) A
  call m s = let (r, o) = m s.outside in (r, record s { outside = o })

  abbrev show : (p.Outside → p.Outside) → Exec (App p) Unit
  show f s = (ok tt, record s { outside = f s.outside })

  -- A pointer that is used without a test.
  abbrev deref : {A : Type 0} → Option A → Exec (App p) A
  deref none = fail nil_dereference
  deref (some a) = pure a

  unfoldable pub apply_change : ServerMessage → Exec (App p) Unit
  apply_change msg = do
    fc ← deref msg.file_change
    applied ← attempt (
        call (
          p.apply (record { op = fc.op; path = fc.path; hash = fc.hash; mode = fc.mode })
            msg.content))
    elim applied [
      | err e ↦ show (p.show_failure fc.path e)
      | ok _ ↦ show (p.show_change fc.op fc.path)
    ]

  -- A send on a full channel waits: the message is not handled, and it says so.
  unfoldable pub offer_sync : ServerMessage → Exec (App p) Bool
  offer_sync msg s = elim s.sync_req [
    | some _ ↦ (ok false, s)
    | none ↦ (ok true, record s { sync_req = some msg.sync_request })
  ]

  unfoldable pub offer_ready : Bytes → Exec (App p) Bool
  offer_ready id s = elim s.ready [
    | some _ ↦ (ok false, s)
    | none ↦ (ok true, record s { ready = some id })
  ]

  -- The `switch` of readLoop; it returns whether the message was handled.
  unfoldable pub handle_message : ServerMessage → Exec (App p) Bool
  unfolding offer_sync offer_ready apply_change
  handle_message msg =
      if bytes_eq msg.typ MessageType.sync_request
      then offer_sync msg
      else if bytes_eq msg.typ MessageType.session_ready
      then (do d ← deref msg.session_ready; offer_ready d.session_id)
      else if bytes_eq msg.typ MessageType.stream_event
      then (do call (p.show_event msg.stream_event); pure true)
      else if bytes_eq msg.typ MessageType.file_change
      then (do apply_change msg; pure true)
      else if bytes_eq msg.typ MessageType.turn_done
      then (do
        call (p.show_turn msg.turn_done)
        modify λ s. record s { turn_done = true }
        pure true)
      else if bytes_eq msg.typ MessageType.error
      then (do d ← deref msg.error; show (p.show_error d.message); pure true)
      else pure true

  -- One round of readLoop; it returns whether the loop goes on. A message that has to wait stops
  -- it for good: Run takes from each of the two channels once.
  unfoldable pub read_round : Result ServerMessage → Exec (App p) Bool
  unfolding handle_message
  read_round (err e) s =
      (ok false, record s { read_err = elim s.read_err [ none ↦ some e | some d ↦ some d ] })
  read_round (ok msg) s = handle_message msg s

  -- readLoop over what ReadServerMessage returns.
  unfoldable pub read_loop : List (Result ServerMessage) → Exec (App p) Unit
  unfolding read_round
  read_loop [] = pure tt
  read_loop (r ∷ rest) =
      let more = read_loop rest in
      λ s.
        if s.reading
        then (do
          go_on ← read_round r
          if go_on then more else modify λ s. record s { reading = false })
            s
        else (ok tt, s)

  -- `select` on a signal, the reader's error and the context. Of several that are ready Go takes
  -- any: with `prefer_signal` the signal. With none the call returns when its context is cancelled.
  abbrev await : {A : Type 0} → Bool → Option A → Option Error → Result A
  await prefer_signal none none = err cancelled
  await prefer_signal none (some e) = err e
  await prefer_signal (some a) none = ok a
  await prefer_signal (some a) (some e) = if prefer_signal then ok a else err e

  -- The uploads that the server asked for.
  unfoldable pub upload_loop : Dict Bytes Bytes → List Bytes → Exec p.Outside Unit
  upload_loop by_hash [] = pure tt
  upload_loop by_hash (hash ∷ missing) =
      let rest = upload_loop by_hash missing in
      elim (Dict.get hash by_hash) [
        | none ↦ fail (unknown_hash hash)
        | some path ↦ do content ← p.read_file path; p.upload_blob hash content; rest
      ]

  -- The lines of the input, each with the messages that are handled while its turn is waited for.
  unfoldable pub repl : Bool → List (Bytes × List (Result ServerMessage)) → Exec (App p) Unit
  unfolding read_loop
  repl prefer_signal [] = call p.session_end
  repl prefer_signal ((line, messages) ∷ lines) =
      let text = p.trim_space line in
      let rest = repl prefer_signal lines in
      if bytes_eq text [] then rest else do
        call (p.prompt text)
        read_loop messages
        done ← gets λ s. await prefer_signal (if s.turn_done then some tt else none) s.read_err
        lift done
        modify λ s. record s { turn_done = false }
        rest

  -- `Run`, with the messages that are handled before each of its two waits.
  unfoldable pub run :
      Bool
      → Bytes
      → List (Result ServerMessage)
      → List (Result ServerMessage)
      → List (Bytes × List (Result ServerMessage))
      → Exec (App p) Unit
  unfolding to_dto read_loop upload_loop repl
  run prefer_signal project_name at_start at_ready lines = do
    manifest ← call p.manifest
    call (p.session_start project_name (to_dto manifest).0)
    read_loop at_start
    asked ← gets λ s. await prefer_signal s.sync_req s.read_err
    pointer ← lift asked
    modify λ s. record s { sync_req = none }
    req ← deref pointer
    call (upload_loop (to_dto manifest).1 req.missing)
    call p.sync_done
    read_loop at_ready
    started ← gets λ s. await prefer_signal s.ready s.read_err
    _ ← lift started
    modify λ s. record s { ready = none }
    repl prefer_signal lines
