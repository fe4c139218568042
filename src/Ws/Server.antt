-- ===== src/Ws/Server.antt =====
-- internal/adapters/transport/ws/server.go: the configuration checks, the limit on sessions and
-- the dispatch of a client's messages. The service and the notifier are parameters, and so are the
-- parts of the package net that read addresses.
pub mod Bind
pub mod Slots
pub mod Served
pub mod Keeps
pub mod Handle
use claude_share.Base.{
  ℕ, ◌+◌, ◌-◌, ◌%◌, ◌^◌, Bool, true, false, not, ◌&&◌, ◌||◌, Bytes, bytes_eq, codes, Option, none,
  some, List, [], ◌∷◌, ◌++◌, map, ◌==◌, ltb, if◌then◌else◌, length, Error, Result, ok, err, foreign,
  bad_psk, invalid_addr, wildcard_address, not_loopback,
}
use claude_share.Base.Exec
use claude_share.Base.Exec.{Exec, attempt, ◌>>=◌, ◌>>◌}
use claude_share.Domain.{Manifest, FileEntry}
use claude_share.Protocol.{
  Json, Coder, FileEntryDto, SessionStartData, BlobData, PromptData, unmarshal_data,
}
use claude_share.Protocol.MessageType
use claude_share.Ws.Conn.{Framed}

-- net.SplitHostPort, net.ParseIP and IP.IsLoopback.
pub record Net : Type 1 where
  pub Ip : Type 0
  pub split_host_port : Bytes → Result (Bytes × Bytes)
  pub parse_ip : Bytes → Option Ip
  pub is_loopback : Ip → Bool

is_wildcard : Bytes → Bool
is_wildcard host =
    bytes_eq host [] || (bytes_eq host (codes "0.0.0.0") || bytes_eq host (codes "::"))

is_outside : (net : Net) → Option net.Ip → Bool
is_outside net none = false
is_outside net (some ip) = not (net.is_loopback ip)

unfoldable pub check_bind : Net → Bytes → Bool → Result (Unit {0})
unfolding is_wildcard is_outside
check_bind net addr allow_public = if allow_public then ok tt else elim (net.split_host_port addr) [
  | err e ↦ err (invalid_addr e)
  | ok (host, port) ↦
      if is_wildcard host
      then err wildcard_address
      else if is_outside net (net.parse_ip host)
      then err not_loopback
      else ok tt
]

pub record ServerConfig : Type 0 where
  pub addr : Bytes
  pub psk : Bytes
  pub allow_public : Bool
  pub max_sessions : ℕ

-- `slots`: the number of sessions that run, and the capacity of the channel, if there is one.
pub record Server : Type 0 where
  pub cfg : ServerConfig
  pub slots : Option ℕ
  pub used : ℕ

unfoldable pub new_server : Net → ServerConfig → Result Server
unfolding check_bind
new_server net cfg =
    if not (length cfg.psk == 32)
    then err bad_psk
    else elim (check_bind net cfg.addr cfg.allow_public) [
      | err e ↦ err e
      | ok _ ↦ ok (record {
        cfg = cfg;
        slots = if ltb 0 cfg.max_sessions then some cfg.max_sessions else none;
        used = 0;
      })
    ]

-- The slot that `handle` takes, if one is left.
unfoldable pub take_slot : Server → Option Server
take_slot s = elim s.slots [
  | none ↦ some s
  | some capacity ↦ if ltb s.used capacity then some (record s { used = s.used + 1 }) else none
]

-- The deferred release.
unfoldable pub release_slot : Server → Server
release_slot s = elim s.slots [ none ↦ s | some _ ↦ record s { used = s.used - 1 } ]

unfoldable pub to_manifest : List FileEntryDto → Manifest
to_manifest dto = record {
  entries =
      map
        (λ (e : FileEntryDto). record {
          path = e.path;
          hash = e.hash;
          size = e.size;
          mode = e.mode;
        })
        dto;
}

-- What dispatch drives: the service, and the notifier of the connection.
pub record Driven : Type 1 where
  pub State : Type 0
  pub start_session : Bytes → Manifest → Exec State (List Bytes)
  pub put_blob : Bytes → Bytes → Exec State Unit
  pub sync_done : Exec State Bytes
  pub interrupt : Exec State Unit
  -- A goroutine that handles a prompt is started.
  pub spawn_prompt : Bytes → State → State
  pub sync_request : List Bytes → Exec State Unit
  pub session_ready : Bytes → Exec State Unit
  pub error : Bytes → Exec State Unit

module _ (svc : Driven) (json : Json) (text_of : Error → Bytes) where
  -- `if err != nil { _ = notify.Error(err.Error()); return err }`
  unfoldable pub reported : {A : Type 0} → Exec svc.State A → Exec svc.State A
  reported m s =
      let (r, s') = m s in
      elim r [ ok a ↦ (ok a, s') | err e ↦ (err e, (svc.error (text_of e) s').1) ]

  -- One round of dispatch; it returns whether the session goes on.
  unfoldable pub dispatch_message : Framed → Exec svc.State Bool
  unfolding reported to_manifest unmarshal_data
  dispatch_message msg =
      let typ = msg.env.typ in
      if bytes_eq typ MessageType.session_start
      then (do
        d ← Exec.lift (
            unmarshal_data json.session_start (record { project_name = []; manifest = [] }) msg.env)
        missing ← reported (svc.start_session d.project_name (to_manifest d.manifest))
        svc.sync_request missing
        Exec.pure true)
      else if bytes_eq typ MessageType.blob
      then (do
        d ←
            Exec.lift
              (unmarshal_data json.blob (record { stream_id = 0; hash = []; size = 0 }) msg.env)
        reported (svc.put_blob d.hash msg.content)
        Exec.pure true)
      else if bytes_eq typ MessageType.sync_done
      then (do id ← reported svc.sync_done; svc.session_ready id; Exec.pure true)
      else if bytes_eq typ MessageType.prompt
      then (do
        d ← Exec.lift (unmarshal_data json.prompt (record { text = [] }) msg.env)
        Exec.modify (svc.spawn_prompt d.text)
        Exec.pure true)
      else if bytes_eq typ MessageType.interrupt
      then (do _ ← attempt (reported svc.interrupt); Exec.pure true)
      else Exec.pure (not (bytes_eq typ MessageType.session_end))

  -- `dispatch`, for the messages that ReadMessage returns and the error that it returns after them.
  unfoldable pub dispatch : List Framed → Error → Exec svc.State Unit
  unfolding dispatch_message
  dispatch [] closed = Exec.fail closed
  dispatch (msg ∷ msgs) closed =
      let rest = dispatch msgs closed in
      do go_on ← dispatch_message msg; if go_on then rest else Exec.pure tt
