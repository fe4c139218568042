-- ===== src/Session/Lifecycle.antt =====
-- SyncDone, HandlePrompt and Close of internal/core/app/session.go over the life of a session.
use claude_share.Base.{
  inl, inr, ◌⊎◌, ◌≡◌, ◌≢◌, refl, Bool, true, Bytes, bytes_eq, Option, Option-cases, none, [], Error,
  Result, Result-cases, ok, err, not_ready, nil_dereference,
}
use claude_share.Domain.{AgentEvent, agent_result}
use claude_share.Session.{
  Deps, Service, Schedule, sync_done, bring_up, handle_prompt, interrupt, close, pump_event, pump,
}

module _ (p : Deps) where
  close_clears : (s : Service p) → ((close p s).1.agent ≡ none) × ((close p s).1.ws ≡ none)
  unfolding close
  close_clears s = (refl, refl)

  -- After Close a prompt is refused, an interrupt and a second Close do nothing.
  pub after-close :
      (s : Service p) (text : Bytes) (events : Schedule) (b : Bool)
      → let s' = (close p s).1 in
        (handle_prompt p text events b s' ≡ (err not_ready, s'))
        × (interrupt p s' ≡ (ok tt, s'))
        × (close p s' ≡ (ok tt, s'))
  unfolding handle_prompt interrupt close
  after-close s text events b = (refl, refl, refl)

  -- If the event that ends a turn is still to be read when the session is closed, the pump calls
  -- a method of the workspace that is gone.
  pub pump_event-close :
      (s : Service p) (ev : AgentEvent)
      → (p.stream_event ev (close p s).1.outside).0 ≡ ok tt
      → bytes_eq ev.kind agent_result ≡ true
      → (pump_event p ev (close p s).1).0 ≡ err nil_dereference
  unfolding pump_event close
  pump_event-close s ev sent is = rw (sent, is) refl

  -- Whatever fails in SyncDone, no agent is recorded, and it can be called again.
  abbrev pub Started : Service p → Result Bytes → Service p → Type 0
  Started s r s' =
      ((e : Error) × (r ≡ err e) × (s'.agent ≡ none))
      ⊎ ((r ≡ ok s'.session_id)
          × (s'.agent ≢ none)
          × (s'.ws ≢ none)
          × (s'.pumping ≡ true)
          × (sync_done p s' ≡ (ok s'.session_id, s')))

  pub sync_done_starts :
      (s : Service p) → s.agent ≡ none → Started s (sync_done p s).0 (sync_done p s).1
  unfolding sync_done bring_up
  sync_done_starts s h =
      let id = (p.new_id s.outside).0 in
      let o₁ = (p.new_id s.outside).1 in
      rw h (elim (Result-cases (p.new_workspace id o₁).0) [
        | inl (e, q) ↦ rw q (inl (e, refl, refl))
        | inr (ws, q) ↦
            let o₂ = (p.new_workspace id o₁).1 in
            rw q (elim (Result-cases (p.materialize ws s.manifest o₂).0) [
              | inl (e, r) ↦ rw r (inl (e, refl, refl))
              | inr (u, r) ↦
                  let o₃ = (p.materialize ws s.manifest o₂).1 in
                  rw r (elim (Result-cases (p.start id (p.dir ws) o₃).0) [
                    | inl (e, t) ↦ rw t (inl (e, refl, refl))
                    | inr (a, t) ↦ rw t (inr (refl, (λ x. cc x), (λ x. cc x), refl, refl))
                  ])
            ])
      ])

  -- SyncDone when its calls succeed.
  pub sync_done_run :
      (s : Service p) (ws : p.Workspace) (a : p.Agent)
      → s.agent ≡ none
      → let (id, o₁) = p.new_id s.outside in
        let o₂ = (p.new_workspace id o₁).1 in
        let o₃ = (p.materialize ws s.manifest o₂).1 in
        (p.new_workspace id o₁).0 ≡ ok ws
        → (p.materialize ws s.manifest o₂).0 ≡ ok tt
        → (p.start id (p.dir ws) o₃).0 ≡ ok a
        → ((sync_done p s).0 ≡ ok id) × ((sync_done p s).1.outside ≡ (p.start id (p.dir ws) o₃).1)
  unfolding sync_done bring_up
  sync_done_run s ws a h q r t = rw (h, q, r, t) (refl, refl)

  -- A signal that an earlier turn left does not answer a prompt.
  pub handle_prompt_fresh :
      (s : Service p) (text : Bytes) (events : Schedule) (b : Bool)
      (stale : Option (Result (Unit {0})))
      → events.before_drain ≡ []
      → (handle_prompt p text events b (record s { signal = stale })).0
        ≡ (handle_prompt p text events b s).0
  unfolding handle_prompt pump
  handle_prompt_fresh s text events b stale h = elim (Option-cases s.agent) [
    | inl q ↦ rw q refl
    | inr (agent, q) ↦ elim (Option-cases s.ws) [
      | inl r ↦ rw (q, r) refl
      | inr (ws, r) ↦
          rw (q, r, h)
            (elim (Result-cases (p.snapshot ws s.outside).0) [
              | inl (e, t) ↦ rw t refl
              | inr (m, t) ↦ rw t refl
            ])
    ]
  ]
