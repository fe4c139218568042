-- ===== src/Session/Reachable.antt =====
-- The states that the calls of internal/core/app/session.go lead to before Close.
use claude_share.Base.{
  ◌≡◌, ◌≢◌, inl, inr, refl, ap, sym, ◌∙◌, Bool, true, false, Bytes, bytes_eq, Option, Option-cases,
  none, some, List, [], ◌∷◌, Result, Result-cases, Bool-cases, ok, err, not_ready, arith,
}
use claude_share.Base.Exec.{
  Exec, gets, modify, bind-after, LeavesAlone, bind-LeavesAlone, ◌>>=◌, ◌>>◌,
}
use claude_share.Domain.{Manifest, AgentEvent, TurnResult, agent_result}
use claude_share.Fsutil.Diff.{diff}
use claude_share.Session.{
  Deps, Service, Schedule, call, new_service, start_session, put_blob, sync_done, bring_up,
  finish_turn, push_changes, result_or_zero, offer, pump_event, pump, await_turn, handle_prompt,
  interrupt,
}

module _ (p : Deps) where
  -- One call of a method, or one event that the pump takes.
  pub data Call (s : Service p) : Service p → Type 0 where
    starts_session : (name : Bytes) (m : Manifest) → Call s (start_session p name m s).1
    puts_blob : (hash content : Bytes) → Call s (put_blob p hash content s).1
    ends_sync : Call s (sync_done p s).1
    prompts :
        (text : Bytes) (events : Schedule) (b : Bool) → Call s (handle_prompt p text events b s).1
    interrupts : Call s (interrupt p s).1
    pumps : (ev : AgentEvent) → s.pumping ≡ true → Call s (pump_event p ev s).1

  pub data Calls : Service p → Service p → Type 0 where
    no_calls : {s : Service p} → Calls s s
    then_call : {s t u : Service p} → Calls s t → Call t u → Calls s u

  -- An agent and a pump come only with a workspace.
  pub record IsSound (s : Service p) : Type 0 where
    pub agent_in : s.agent ≢ none → s.ws ≢ none
    pub pump_in : s.pumping ≡ true → s.ws ≢ none

  new_service-IsSound : (o : p.Outside) → IsSound (new_service p o)
  unfolding new_service
  new_service-IsSound o = record { agent_in = λ h. absurd (h refl); pump_in = λ h. cc h }

  -- The fields that a turn leaves alone.
  abbrev pub held : Service p → Option p.Agent × Option p.Workspace × Bool
  held s = (s.agent, s.ws, s.pumping)

  same_held : (s t : Service p) → held t ≡ held s → IsSound s → IsSound t
  same_held s t e i = record {
    agent_in = λ h n.
        i.agent_in (λ a. h (ap (λ (x : Option p.Agent × Option p.Workspace × Bool). x.0) e ∙ a))
          (ap (λ (x : Option p.Agent × Option p.Workspace × Bool). x.1) (sym e) ∙ n);
    pump_in = λ h n.
        i.pump_in (ap (λ (x : Option p.Agent × Option p.Workspace × Bool). x.2) (sym e) ∙ h)
          (ap (λ (x : Option p.Agent × Option p.Workspace × Bool). x.1) (sym e) ∙ n);
  }

  module _ {V : Type 0} (view : Service p → V)
      (outside : (o : p.Outside) (s : Service p) → view (record s { outside = o }) ≡ view s)
      (pre_turn : (m : Manifest) (s : Service p) → view (record s { pre_turn = m }) ≡ view s) where
    call-LeavesAlone : {A : Type 0} (m : Exec p.Outside A) → LeavesAlone view (call p m)
    call-LeavesAlone m = record { same = λ s. outside (m s.outside).1 s }

    -- Finishing a turn changes the baseline and what is outside, and nothing else.
    pub finish_turn-LeavesAlone :
        (ws : p.Workspace) (res : Option TurnResult) → LeavesAlone view (finish_turn p ws res)
    unfolding finish_turn
    finish_turn-LeavesAlone ws res =
        bind-LeavesAlone view {m = call p (p.snapshot ws)} (call-LeavesAlone (p.snapshot ws))
          (λ after.
            bind-LeavesAlone view {m = gets (λ (s : Service p). s.pre_turn)}
              (record { same = λ s. refl })
              (λ before.
                bind-LeavesAlone view {m = call p (push_changes p ws (diff before after))}
                  (call-LeavesAlone _)
                  (λ _.
                    bind-LeavesAlone view
                      {m = modify (λ (s : Service p). record s { pre_turn = after })}
                      {f = λ _. call p (p.turn_done (result_or_zero p res))}
                      (record { same = pre_turn after }) (λ _. call-LeavesAlone _))))

  pub held-offer : (r : Result (Unit {0})) (s : Service p) → held (offer p r s) ≡ held s
  held-offer r s = elim (Option-cases s.signal) [ inl q ↦ rw q refl | inr (x, q) ↦ rw q refl ]

  -- A result event, where there is a workspace.
  pub result_event :
      (ev : AgentEvent) (ws : p.Workspace) (s : Service p)
      → (p.stream_event ev s.outside).0 ≡ ok tt
      → bytes_eq ev.kind agent_result ≡ true
      → s.ws ≡ some ws
      → let s₁ = record s { outside = (p.stream_event ev s.outside).1 } in
        pump_event p ev s
        ≡ (ok tt, offer p (finish_turn p ws ev.result s₁).0 (finish_turn p ws ev.result s₁).1)
  unfolding pump_event
  result_event ev ws s sent is w = rw (sent, is, w) refl

  pump_event-IsSound :
      (ev : AgentEvent) (s : Service p)
      → s.pumping ≡ true
      → IsSound s
      → ((pump_event p ev s).0 ≡ ok tt) × IsSound (pump_event p ev s).1
  unfolding pump_event
  pump_event-IsSound ev s on i =
      let o = (p.stream_event ev s.outside).1 in
      let s₁ : Service p = record s { outside = o } in
      elim (Result-cases (p.stream_event ev s.outside).0) [
        | inl (e, q) ↦ rw q (refl, record { agent_in = i.agent_in; pump_in = λ h. cc h })
        | inr (_, q) ↦ elim (Bool-cases (bytes_eq ev.kind agent_result)) [
          | inr n ↦ rw (q, n) (refl, same_held s s₁ refl i)
          | inl y ↦ elim (Option-cases s.ws) [
            | inl none_there ↦ absurd (i.pump_in on none_there)
            | inr (ws, w) ↦
                let f = finish_turn p ws ev.result s₁ in
                rw (result_event ev ws s q y w) (
                  refl,
                  same_held s (offer p f.0 f.1)
                      (held-offer f.0 f.1
                        ∙ (finish_turn-LeavesAlone held (λ x t. refl) (λ m t. refl) ws
                              ev.result).same
                            s₁)
                      i,
                )
          ]
        ]
      ]

  pub pump_on :
      (ev : AgentEvent) (evs : List AgentEvent) (s : Service p)
      → s.pumping ≡ true
      → pump p (ev ∷ evs) s ≡ (pump_event p ev >>= λ _. pump p evs) s
  unfolding pump
  pump_on ev evs s on = simp on

  pump_off :
      (ev : AgentEvent) (evs : List AgentEvent) (s : Service p)
      → s.pumping ≡ false
      → pump p (ev ∷ evs) s ≡ (ok tt, s)
  unfolding pump
  pump_off ev evs s off = simp off

  pump-IsSound : (evs : List AgentEvent) (s : Service p) → IsSound s → IsSound (pump p evs s).1
  pump-IsSound [] s i = unfold pump in i
  pump-IsSound (ev ∷ evs) s i = elim (Bool-cases s.pumping) [
    | inr off ↦ rw (pump_off ev evs s off) i
    | inl on ↦
        let (_, after) = pump_event-IsSound ev s on i in
        rw (pump_on ev evs s on) (
          bind-after IsSound (pump_event p ev) (λ _. pump p evs) s after
            (λ _ _. pump-IsSound evs (pump_event p ev s).1 after))
  ]

  -- HandlePrompt, where there are an agent and a workspace.
  abbrev pub turn : p.Agent → p.Workspace → Bytes → Schedule → Bool → Exec (Service p) Unit
  turn agent ws text events b = do
    snap ← call p (p.snapshot ws)
    modify λ s. record s { pre_turn = snap }
    pump p events.before_drain
    modify λ s. record s { signal = none }
    pump p events.before_send
    call p (p.send agent text)
    pump p events.before_wait
    await_turn p b

  pub handle_prompt-turn :
      (text : Bytes) (events : Schedule) (b : Bool) (s : Service p) (agent : p.Agent)
      (ws : p.Workspace)
      → s.agent ≡ some agent
      → s.ws ≡ some ws
      → handle_prompt p text events b s ≡ turn agent ws text events b s
  unfolding handle_prompt
  handle_prompt-turn text events b s agent ws a w = λ i. elim (a i) [
    | none ↦ (err not_ready, s)
    | some agent ↦ elim (w i) [
      | none ↦ (err not_ready, s)
      | some ws ↦ turn agent ws text events b s
    ]
  ]

  await_turn-LeavesAlone : (b : Bool) → LeavesAlone held (await_turn p b)
  unfolding await_turn
  await_turn-LeavesAlone b = record { same = λ s. ground arith }

  turn-IsSound :
      (agent : p.Agent) (ws : p.Workspace) (text : Bytes) (events : Schedule) (b : Bool)
      (s : Service p)
      → IsSound s
      → IsSound (turn agent ws text events b s).1
  turn-IsSound agent ws text events b s i =
      let (snap, s₁) = call p (p.snapshot ws) s in
      let sound₁ : IsSound s₁ = same_held s s₁ refl i in
      let send = call p (p.send agent text) in
      bind-after IsSound (call p (p.snapshot ws))
        (λ m. (modify λ s. record s { pre_turn = m }) >> drained) s sound₁
        (λ m _.
          let s₂ : Service p = record s₁ { pre_turn = m } in
          let sound₃ = pump-IsSound events.before_drain s₂ (same_held s₁ s₂ refl sound₁) in
          bind-after IsSound (pump p events.before_drain)
            (λ _. (modify λ s. record s { signal = none }) >> sent) s₂ sound₃
            (λ _ _.
              let s₃ = (pump p events.before_drain s₂).1 in
              let s₄ : Service p = record s₃ { signal = none } in
              let sound₅ = pump-IsSound events.before_send s₄ (same_held s₃ s₄ refl sound₃) in
              bind-after IsSound (pump p events.before_send) (λ _. send >> waited) s₄ sound₅
                (λ _ _.
                  let s₅ = (pump p events.before_send s₄).1 in
                  bind-after IsSound send (λ _. waited) s₅ (same_held s₅ (send s₅).1 refl sound₅)
                    (λ _ _. waited-IsSound (send s₅).1 (same_held s₅ (send s₅).1 refl sound₅)))))
    where
      waited : Exec (Service p) Unit
      waited = pump p events.before_wait >> await_turn p b

      sent : Exec (Service p) Unit
      sent = do pump p events.before_send; call p (p.send agent text); waited

      drained : Exec (Service p) Unit
      drained = do pump p events.before_drain; modify λ s. record s { signal = none }; sent

      waited-IsSound : (t : Service p) → IsSound t → IsSound (waited t).1
      waited-IsSound t j =
          let after = pump-IsSound events.before_wait t j in
          bind-after IsSound (pump p events.before_wait) (λ _. await_turn p b) t after
            (λ _ _.
              let u = (pump p events.before_wait t).1 in
              same_held u _ ((await_turn-LeavesAlone b).same u) after)

  handle_prompt-IsSound :
      (text : Bytes) (events : Schedule) (b : Bool) (s : Service p)
      → IsSound s
      → IsSound (handle_prompt p text events b s).1
  handle_prompt-IsSound text events b s i = elim (Option-cases s.agent) [
    | inl q ↦
        unfold handle_prompt in rw q (same_held s _ (ap (λ a. (a, s.ws, s.pumping)) (sym q)) i)
    | inr (agent, q) ↦ elim (Option-cases s.ws) [
      | inl r ↦
          unfold handle_prompt in rw (q, r) (same_held s _ (λ j. (sym q j, sym r j, s.pumping)) i)
      | inr (ws, r) ↦
          rw (handle_prompt-turn text events b s agent ws q r)
            (turn-IsSound agent ws text events b s i)
    ]
  ]

  sync_done-IsSound : (s : Service p) → IsSound s → IsSound (sync_done p s).1
  unfolding sync_done bring_up
  sync_done-IsSound s i = elim (Option-cases s.agent) [
    | inr (a, q) ↦ rw q (same_held s _ (ap (λ a. (a, s.ws, s.pumping)) (sym q)) i)
    | inl q ↦
        let id = (p.new_id s.outside).0 in
        let o₁ = (p.new_id s.outside).1 in
        rw q (elim (Result-cases (p.new_workspace id o₁).0) [
          | inl (e, r) ↦ rw r (record { agent_in = λ h. absurd (h refl); pump_in = i.pump_in })
          | inr (ws, r) ↦
              let o₂ = (p.new_workspace id o₁).1 in
              rw r (elim (Result-cases (p.materialize ws s.manifest o₂).0) [
                | inl (e, t) ↦ rw t (record { agent_in = λ h n. cc n; pump_in = λ h n. cc n })
                | inr (u, t) ↦
                    let o₃ = (p.materialize ws s.manifest o₂).1 in
                    rw t (elim (Result-cases (p.start id (p.dir ws) o₃).0) [
                      | inl (e, v) ↦ rw v (record { agent_in = λ h n. cc n; pump_in = λ h n. cc n })
                      | inr (a, v) ↦ rw v (record { agent_in = λ h n. cc n; pump_in = λ h n. cc n })
                    ])
              ])
        ])
  ]

  interrupt-IsSound : (s : Service p) → IsSound s → IsSound (interrupt p s).1
  unfolding interrupt
  interrupt-IsSound s i = elim (Option-cases s.agent) [
    | inl q ↦ rw q (same_held s _ (ap (λ a. (a, s.ws, s.pumping)) (sym q)) i)
    | inr (a, q) ↦ rw q (same_held s _ (ap (λ a. (a, s.ws, s.pumping)) (sym q)) i)
  ]

  Call-IsSound : {s t : Service p} → Call s t → IsSound s → IsSound t
  Call-IsSound (starts_session name m) i = unfold start_session in same_held _ _ refl i
  Call-IsSound (puts_blob hash content) i = unfold put_blob in same_held _ _ refl i
  Call-IsSound ends_sync i = sync_done-IsSound _ i
  Call-IsSound (prompts text events b) i = handle_prompt-IsSound text events b _ i
  Call-IsSound interrupts i = interrupt-IsSound _ i
  Call-IsSound (pumps ev on) i = (pump_event-IsSound ev _ on i).1

  Calls-IsSound : {s t : Service p} → Calls s t → IsSound s → IsSound t
  Calls-IsSound no_calls i = i
  Calls-IsSound (then_call calls call) i = Call-IsSound call (Calls-IsSound calls i)

  pump_ok : (evs : List AgentEvent) (s : Service p) → IsSound s → (pump p evs s).0 ≡ ok tt
  pump_ok [] s i = unfold pump in refl
  pump_ok (ev ∷ evs) s i = elim (Bool-cases s.pumping) [
    | inr off ↦ rw (pump_off ev evs s off) refl
    | inl on ↦
        let (done, after) = pump_event-IsSound ev s on i in
        rw (pump_on ev evs s on, done) (pump_ok evs (pump_event p ev s).1 after)
  ]

  -- In whatever order a client's calls and the agent's events come, before Close an agent and a
  -- running pump have a workspace, and the pump takes every sequence of events without a call on a
  -- nil interface.
  pub Calls-pump_ok :
      (o : p.Outside) (s : Service p) (evs : List AgentEvent)
      → Calls (new_service p o) s
      → (s.agent ≢ none → s.ws ≢ none)
        × (s.pumping ≡ true → s.ws ≢ none)
        × ((pump p evs s).0 ≡ ok tt)
  Calls-pump_ok o s evs calls =
      let i = Calls-IsSound calls (new_service-IsSound o) in
      (i.agent_in, i.pump_in, pump_ok evs s i)
