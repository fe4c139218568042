-- ===== src/Ws/Server/Handle.antt =====
-- `handle` of internal/adapters/transport/ws/server.go: one connection from its acceptance to its
-- end. The HTTP server, the WebSocket library and the factory of services are parameters; what
-- ReadMessage returns on the connection is an argument, as it is for dispatch.
pub mod Balanced
use claude_share.Base.{
  ℕ, ◌+◌, ◌-◌, Bool, true, false, ◌||◌, Bytes, Option, none, some, List, ◌==◌, if◌then◌else◌, Error,
  Result, ok, err,
}
use claude_share.Base.Exec.{Exec}
use claude_share.Protocol.{Json}
use claude_share.Secrets.Noise.{NoiseLib, Channel, handshake}
use claude_share.Ws.Conn.{Framed}
use claude_share.Ws.Server.{Server, Driven, take_slot, release_slot, dispatch}

-- What errors.Is and websocket.CloseStatus say of an error.
pub record ErrorTests : Type 0 where
  pub is_cancelled : Error → Bool
  pub is_net_closed : Error → Bool
  pub close_status : Error → Option ℕ

abbrev pub status_normal_closure : ℕ
status_normal_closure = 1000

abbrev pub status_going_away : ℕ
status_going_away = 1001

abbrev pub status_policy_violation : ℕ
status_policy_violation = 1008

abbrev pub status_internal_error : ℕ
status_internal_error = 1011

abbrev pub status_try_again_later : ℕ
status_try_again_later = 1013

has_closing_status : Option ℕ → Bool
has_closing_status none = false
has_closing_status (some n) = n == status_normal_closure || n == status_going_away

-- `isClosed`; a nil error is no closed connection.
unfoldable pub is_closed : ErrorTests → Result (Unit {0}) → Bool
unfolding has_closing_status
is_closed tests (ok _) = false
is_closed tests (err e) =
    if tests.is_cancelled e || tests.is_net_closed e
    then true
    else has_closing_status (tests.close_status e)

-- `ListenAndServe`: a server that was closed has served without an error.
unfoldable pub served : (Error → Bool) → Error → Result (Unit {0})
served is_server_closed e = if is_server_closed e then ok tt else err e

-- What handle calls besides the service.
pub record Http (State : Type 0) (lib : NoiseLib) : Type 0 where
  pub accept : Exec State Unit
  pub write : Bytes → Exec State Unit
  pub read : Exec State Bytes
  pub close_socket : ℕ → State → State
  pub open_service : Channel lib → State → State
  pub close_service : State → State
  pub log_rejected : State → State
  pub log_error : Error → State → State

-- The slots of the server, and everything outside them.
pub record Hub (State : Type 0) : Type 0 where
  pub server : Server
  pub state : State

module _ (svc : Driven) (lib : NoiseLib) (http : Http svc.State lib) (json : Json)
    (text_of : Error → Bytes) (tests : ErrorTests) where
  -- `if err := …; err != nil && !isClosed(err) { log }`
  log_ended : Result (Unit {0}) → svc.State → svc.State
  unfolding is_closed
  log_ended (ok _) s = s
  log_ended (err e) s = if is_closed tests (err e) then s else http.log_error e s

  -- From the service on: dispatch, the orderly end, and the deferred Close of the service.
  unfoldable pub run_service : Channel lib → List Framed → Error → svc.State → svc.State
  unfolding dispatch log_ended
  run_service ch msgs closed s =
      let (r, s') = dispatch svc json text_of msgs closed (http.open_service ch s) in
      http.close_service (http.close_socket status_normal_closure (log_ended r s'))

  -- The handshake as the responder, and the service if it succeeds.
  unfoldable pub serve : Bytes → List Framed → Error → svc.State → svc.State
  unfolding handshake run_service
  serve psk msgs closed s =
      let (r, s') =
        handshake lib http.write http.read (record { psk = psk; initiator = false }) s in
      elim r [
        | err e ↦ http.close_socket status_policy_violation (http.log_error e s')
        | ok ch ↦ run_service ch msgs closed s'
      ]

  -- The deferred calls run in the reverse order: the service, the slot, the socket.
  unfoldable pub handle : List Framed → Error → Hub svc.State → Hub svc.State
  unfolding take_slot release_slot serve
  handle msgs closed h =
      let (r, s) = http.accept h.state in
      elim r [
        | err e ↦ record h { state = http.log_error e s }
        | ok _ ↦ elim (take_slot h.server) [
          | none ↦ record h {
            state =
                http.close_socket status_internal_error
                  (http.close_socket status_try_again_later (http.log_rejected s));
          }
          | some server ↦ record {
            server = release_slot server;
            state = http.close_socket status_internal_error (serve h.server.cfg.psk msgs closed s);
          }
        ]
      ]
