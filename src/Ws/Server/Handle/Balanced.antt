-- ===== src/Ws/Server/Handle/Balanced.antt =====
-- What one connection leaves behind: `handle` of internal/adapters/transport/ws/server.go.
use claude_share.Base.{
  ℕ, ◌≤◌, ◌+◌, ◌-◌, ◌≡◌, inl, inr, refl, ◌∙◌, Bool, true, false, Bytes, none, some, List, Error,
  Result, Result-cases, Bool-cases, Option-cases, ok, err, arith,
}
use claude_share.Base.Exec.{LeavesAlone}
use claude_share.Protocol.{Json}
use claude_share.Secrets.Noise.{NoiseLib, Channel, Config, handshake}
use claude_share.Secrets.Noise.Frames.{handshake-LeavesAlone}
use claude_share.Ws.Conn.{Framed}
use claude_share.Ws.Server.{Server, Driven, take_slot, release_slot, dispatch}
use claude_share.Ws.Server.Keeps.{Keeps, dispatch-LeavesAlone}
use claude_share.Ws.Server.Handle.{
  Http, Hub, ErrorTests, is_closed, log_ended, run_service, serve, handle,
}

-- What handle opens and closes: the services that run, those that were ever made, and whether the
-- socket of the connection is open.
pub record View : Type 0 where
  pub running : ℕ
  pub made : ℕ
  pub is_open : Bool

-- What the calls around the service do to it.
pub record Opens (svc : Driven) (lib : NoiseLib) (http : Http svc.State lib)
    (view : svc.State → View) : Type 0 where
  pub accepted :
      (s : svc.State)
      → (http.accept s).0 ≡ ok tt
      → view (http.accept s).1 ≡ record (view s) { is_open = true }
  pub not_accepted :
      (s : svc.State) (e : Error) → (http.accept s).0 ≡ err e → view (http.accept s).1 ≡ view s
  pub write : (b : Bytes) → LeavesAlone view (http.write b)
  pub read : LeavesAlone view http.read
  pub close_socket :
      (n : ℕ) (s : svc.State) → view (http.close_socket n s) ≡ record (view s) { is_open = false }
  pub open_service :
      (ch : Channel lib) (s : svc.State)
      → view (http.open_service ch s)
        ≡ record (view s) { running = (view s).running + 1; made = (view s).made + 1 }
  pub close_service :
      (s : svc.State)
      → view (http.close_service s) ≡ record (view s) { running = (view s).running - 1 }
  pub log_rejected : (s : svc.State) → view (http.log_rejected s) ≡ view s
  pub log_error : (e : Error) (s : svc.State) → view (http.log_error e s) ≡ view s

-- The slot that was taken is given back.
release_slot-take_slot : (s s' : Server) → take_slot s ≡ some s' → release_slot s' ≡ s
unfolding take_slot release_slot
release_slot-take_slot s s' h = ground arith

module _ (svc : Driven) (lib : NoiseLib) (http : Http svc.State lib) (json : Json)
    (text_of : Error → Bytes) (tests : ErrorTests) (view : svc.State → View) (k : Keeps svc view)
    (opens : Opens svc lib http view) where
  log_ended_view :
      (r : Result (Unit {0})) (s : svc.State)
      → view (log_ended svc lib http json text_of tests r s) ≡ view s
  unfolding log_ended
  log_ended_view (ok _) s = refl
  log_ended_view (err e) s = elim (Bool-cases (is_closed tests (err e))) [
    | inl q ↦ rw q refl
    | inr q ↦ rw q (opens.log_error e s)
  ]

  run_service_view :
      (ch : Channel lib) (msgs : List Framed) (closed : Error) (s : svc.State)
      → view (run_service svc lib http json text_of tests ch msgs closed s)
        ≡ record (view s) { made = (view s).made + 1; is_open = false }
  unfolding run_service
  run_service_view ch msgs closed s =
      let s₁ = http.open_service ch s in
      let (r, s₂) = dispatch svc json text_of msgs closed s₁ in
      let same : view (log_ended svc lib http json text_of tests r s₂) ≡ view s₁ =
        log_ended_view r s₂ ∙ (dispatch-LeavesAlone svc view k json text_of msgs closed).same s₁ in
      rw (opens.close_service, opens.close_socket, same, opens.open_service ch s) (ground arith)

  -- What serve leaves of a view: a service more was made, or none.
  abbrev Ended : View → View → Type 0
  Ended v v' = (n : ℕ) × (n ≤ 1) × (v' ≡ record v { made = v.made + n; is_open = false })

  serve-Ended :
      (psk : Bytes) (msgs : List Framed) (closed : Error) (s : svc.State)
      → Ended (view s) (view (serve svc lib http json text_of tests psk msgs closed s))
  unfolding serve
  serve-Ended psk msgs closed s =
      let cfg : Config = record { psk = psk; initiator = false } in
      let s' = (handshake lib http.write http.read cfg s).1 in
      let same = (handshake-LeavesAlone lib view opens.write opens.read cfg).same s in
      elim (Result-cases (handshake lib http.write http.read cfg s).0) [
        | inl (e, q) ↦ (
          0,
          omega arith,
          rw (q, serve) (opens.close_socket _ _ ∙ rw (opens.log_error e s', same) (ground arith)),
        )
        | inr (ch, q) ↦
            (1, omega arith, rw (q, serve) (run_service_view ch msgs closed s' ∙ rw same refl))
      ]

  -- However a connection goes, after handle the server has as many free slots as before, as many
  -- services run as before, and the socket is closed; at most one service was made, and none when
  -- every slot was taken.
  pub handle_balanced :
      (msgs : List Framed) (closed : Error) (h : Hub svc.State)
      → (view h.state).is_open ≡ false
      → let h' = handle svc lib http json text_of tests msgs closed h in
        (h'.server ≡ h.server)
        × ((view h'.state).running ≡ (view h.state).running)
        × ((view h'.state).is_open ≡ false)
        × ((view h.state).made ≤ (view h'.state).made)
        × ((view h'.state).made ≤ (view h.state).made + 1)
        × (take_slot h.server ≡ none → (view h'.state).made ≡ (view h.state).made)
  unfolding handle
  handle_balanced msgs closed h shut =
      let s = (http.accept h.state).1 in
      elim (Result-cases (http.accept h.state).0) [
        | inl (e, q) ↦
            rw (q, handle, opens.log_error e s, opens.not_accepted h.state e q)
              (refl, refl, shut, omega arith, omega arith, λ x. refl)
        | inr (_, q) ↦ elim (Option-cases (take_slot h.server)) [
          | inl full ↦
              rw
                (
                  q,
                  full,
                  handle,
                  opens.close_socket,
                  opens.close_socket,
                  opens.log_rejected,
                  opens.accepted h.state q,
                )
                (refl, refl, refl, omega arith, omega arith, λ x. refl)
          | inr (server, took) ↦
              let (n, small, is) = serve-Ended h.server.cfg.psk msgs closed s in
              rw
                (
                  q,
                  took,
                  handle,
                  opens.close_socket,
                  is,
                  opens.accepted h.state q,
                  release_slot-take_slot h.server server took,
                )
                (refl, refl, refl, omega arith, omega arith, λ x. cc x)
        ]
      ]
