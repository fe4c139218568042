-- ===== src/Session/Answered.antt =====
-- HandlePrompt of internal/core/app/session.go returns when the agent ends the turn.
use claude_share.Base.{
  ◌≡◌, inl, inr, refl, ap, ◌∙◌, Bool, true, false, Bytes, bytes_eq, Option, none, some, List, [],
  ◌∷◌, ◌++◌, Result, Bool-cases, ok, All,
}
use claude_share.Base.Exec.{Exec, modify, bind-run, ◌>>◌}
use claude_share.Domain.{Manifest, AgentEvent, agent_result}
use claude_share.Session.{
  Deps, Service, Schedule, call, finish_turn, pump_event, pump, await_turn, handle_prompt, offer,
}
use claude_share.Session.Reachable.{
  held, held-offer, finish_turn-LeavesAlone, result_event, pump_on, handle_prompt-turn,
}

-- The event ends no turn.
abbrev pub IsNoResult : AgentEvent → Type 0
IsNoResult ev = bytes_eq ev.kind agent_result ≡ false

-- The events of a turn: what comes between the emptying of the channel and the prompt ends no turn,
-- and of what comes after the prompt the last event does.
pub record IsTurn (events : Schedule) (evs : List AgentEvent) (ev : AgentEvent) : Type 0 where
  pub idle : All IsNoResult events.before_send
  pub works : All IsNoResult evs
  pub ends : bytes_eq ev.kind agent_result ≡ true
  pub in_order : events.before_wait ≡ evs ++ ev ∷ []

module _ (p : Deps)
    (reaches : (ev : AgentEvent) (o : p.Outside) → (p.stream_event ev o).0 ≡ ok tt) where
  abbrev Held : Type 0
  Held = Option p.Agent × Option p.Workspace × Bool

  pass_on :
      (ev : AgentEvent) (s : Service p)
      → IsNoResult ev
      → pump_event p ev s ≡ (ok tt, record s { outside = (p.stream_event ev s.outside).1 })
  unfolding pump_event
  pass_on ev s n = rw (reaches ev s.outside, n) refl

  at : p.Outside → Service p → Service p
  at o s = record s { outside = o }

  pump-streamed :
      (evs : List AgentEvent) (s : Service p)
      → s.pumping ≡ true
      → All IsNoResult evs
      → (o : p.Outside) × (pump p evs s ≡ (ok tt, at o s))
  unfolding at
  pump-streamed [] s on all = unfold pump in (s.outside, refl)
  pump-streamed (ev ∷ evs) s on (n, all) =
      let s₁ : Service p = record s { outside = (p.stream_event ev s.outside).1 } in
      let (o, run) = pump-streamed evs s₁ on all in
      (
        o,
        pump_on p ev evs s on
            ∙ bind-run (pump_event p ev) (λ _. pump p evs) s s₁ tt (pass_on ev s n)
            ∙ run,
      )

  -- The events up to the one that ends the turn.
  pump-turn :
      (evs : List AgentEvent) (ev : AgentEvent) (ws : p.Workspace) (s : Service p)
      → s.pumping ≡ true
      → s.ws ≡ some ws
      → All IsNoResult evs
      → bytes_eq ev.kind agent_result ≡ true
      → (o : p.Outside) × (pump p (evs ++ ev ∷ []) s ≡ (
        ok tt,
        offer p (finish_turn p ws ev.result (at o s)).0 (finish_turn p ws ev.result (at o s)).1,
      ))
  unfolding at
  pump-turn [] ev ws s on w all ends =
      let o = (p.stream_event ev s.outside).1 in
      (
        o,
        pump_on p ev [] s on
            ∙ bind-run (pump_event p ev) (λ _. pump p []) s _ tt
                (result_event p ev ws s (reaches ev s.outside) ends w)
            ∙ (unfold pump in refl),
      )
  pump-turn (e ∷ evs) ev ws s on w (n, all) ends =
      let s₁ : Service p = record s { outside = (p.stream_event e s.outside).1 } in
      let (o, run) = pump-turn evs ev ws s₁ on w all ends in
      (
        o,
        pump_on p e (evs ++ ev ∷ []) s on
            ∙ bind-run (pump_event p e) (λ _. pump p (evs ++ ev ∷ [])) s s₁ tt (pass_on e s n)
            ∙ run,
      )

  -- A signal that is offered to an empty channel is taken.
  await_offer :
      (r : Result (Unit {0})) (u : Service p)
      → u.signal ≡ none
      → await_turn p true (offer p r u) ≡ (r, record u { signal = none })
  unfolding await_turn
  await_offer r u h = rw h refl

  -- Any event leaves the pump running.
  pump_event-held :
      (ev : AgentEvent) (ws : p.Workspace) (s : Service p)
      → s.ws ≡ some ws
      → ((pump_event p ev s).0 ≡ ok tt) × (held p (pump_event p ev s).1 ≡ held p s)
  pump_event-held ev ws s w = elim (Bool-cases (bytes_eq ev.kind agent_result)) [
    | inr n ↦ rw (pass_on ev s n) (refl, refl)
    | inl y ↦
        let s₁ : Service p = record s { outside = (p.stream_event ev s.outside).1 } in
        let f = finish_turn p ws ev.result s₁ in
        rw (result_event p ev ws s (reaches ev s.outside) y w) (
          refl,
          held-offer p f.0 f.1
              ∙ (finish_turn-LeavesAlone p (held p) (λ x t. refl) (λ m t. refl) ws ev.result).same
                  s₁,
        )
  ]

  pump-held :
      (evs : List AgentEvent) (ws : p.Workspace) (s : Service p)
      → s.ws ≡ some ws
      → s.pumping ≡ true
      → ((pump p evs s).0 ≡ ok tt) × (held p (pump p evs s).1 ≡ held p s)
  pump-held [] ws s w on = unfold pump in (refl, refl)
  pump-held (ev ∷ evs) ws s w on =
      let s₁ = (pump_event p ev s).1 in
      let (done, same) = pump_event-held ev ws s w in
      let (all_done, all_same) =
        pump-held evs ws s₁ (ap (λ (x : Held). x.1) same ∙ w) (ap (λ (x : Held). x.2) same ∙ on) in
      rw (pump_on p ev evs s on, done) (all_done, all_same ∙ same)

  -- A turn that the agent ends is answered: with an agent, a workspace and a running pump, if the
  -- client can be reached, the workspace can be read and the prompt can be sent, then HandlePrompt
  -- returns what finishing this turn returns, with its signal taken, whatever results of earlier
  -- turns the pump still had to read before the channel was emptied.
  pub handle_prompt_answered :
      (text : Bytes) (events : Schedule) (evs : List AgentEvent) (ev : AgentEvent) (s : Service p)
      (agent : p.Agent) (ws : p.Workspace) (m : Manifest)
      → IsTurn events evs ev
      → s.agent ≡ some agent
      → s.ws ≡ some ws
      → s.pumping ≡ true
      → (p.snapshot ws s.outside).0 ≡ ok m
      → ((o : p.Outside) → (p.send agent text o).0 ≡ ok tt)
      → (t : Service p) × (held p t ≡ held p s)
        × (t.signal ≡ none)
        × (handle_prompt p text events true s ≡ (
          (finish_turn p ws ev.result t).0,
          record (finish_turn p ws ev.result t).1 { signal = none },
        ))
  unfolding at
  handle_prompt_answered text events evs ev s agent ws m ends_by a w on snap sends =
      let s₁ : Service p = at (p.snapshot ws s.outside).1 s in
      let s₂ : Service p = record s₁ { pre_turn = m } in
      let (done, same) = pump-held events.before_drain ws s₂ w on in
      let s₃ = (pump p events.before_drain s₂).1 in
      let s₄ : Service p = record s₃ { signal = none } in
      let on₄ : s₄.pumping ≡ true = ap (λ (x : Held). x.2) same ∙ on in
      let w₄ : s₄.ws ≡ some ws = ap (λ (x : Held). x.1) same ∙ w in
      let (o₅, run₅) = pump-streamed events.before_send s₄ on₄ ends_by.idle in
      let s₅ = at o₅ s₄ in
      let send = call p (p.send agent text) in
      let s₆ : Service p = at (p.send agent text o₅).1 s₄ in
      let (o₇, run₇) = pump-turn evs ev ws s₆ on₄ w₄ ends_by.works ends_by.ends in
      let t : Service p = at o₇ s₄ in
      let f = finish_turn p ws ev.result t in
      let quiet : f.1.signal ≡ none =
        (finish_turn-LeavesAlone p (λ x. x.signal) (λ x y. refl) (λ x y. refl) ws ev.result).same
          t in
      (
        t,
        same,
        refl,
        handle_prompt-turn p text events true s agent ws a w
            ∙ bind-run (call p (p.snapshot ws))
                (λ n. (modify λ r. record r { pre_turn = n }) >> drained) s s₁ m (λ i. (snap i, s₁))
            ∙ bind-run (pump p events.before_drain)
                (λ _. (modify λ r. record r { signal = none }) >> sent) s₂ s₃ tt (λ i. (done i, s₃))
            ∙ bind-run (pump p events.before_send) (λ _. send >> waited) s₄ s₅ tt run₅
            ∙ bind-run send (λ _. waited) s₅ s₆ tt (λ i. (sends o₅ i, s₆))
            ∙ bind-run (pump p events.before_wait) (λ _. await_turn p true) s₆ (offer p f.0 f.1) tt
                (rw ends_by.in_order run₇)
            ∙ await_offer f.0 f.1 quiet,
      )
    where
      waited : Exec (Service p) Unit
      waited = pump p events.before_wait >> await_turn p true

      sent : Exec (Service p) Unit
      sent = do pump p events.before_send; call p (p.send agent text); waited

      drained : Exec (Service p) Unit
      drained = do pump p events.before_drain; modify λ r. record r { signal = none }; sent
