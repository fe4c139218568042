-- ===== src/Session/Turn.antt =====
-- finishTurn of internal/core/app/session.go: what of a turn's changes the client gets.
use claude_share.Base.{
  inl, inr, ◌⊎◌, ◌≡◌, ◌≢◌, refl, sym, ap, ◌∙◌, Bool, true, false, Bytes, bytes_eq, List, [], ◌∷◌,
  ◌++◌, map, append-nil, append_assoc, if◌then◌else◌, Error, Result, Result-cases, ok, err,
}
use claude_share.Domain.{Manifest, FileChange, TurnResult, change_delete}
use claude_share.Fsutil.Diff.{diff}
use claude_share.Session.{Deps, Service, content_of, push_changes, finish_turn, result_or_zero}
use claude_share.Base.{Option}

abbrev pub Log : Type 0
Log = List (FileChange × Bytes)

-- What finishTurn relies on: a push that reports success was made, one that fails was not, and no
-- other call pushes; and in the states in which the workspace's files are those of `text`, reading
-- gives their contents, and the calls up to the last push lead to such states.
pub record Pushes (p : Deps) (ws : p.Workspace) (text : Bytes → Bytes) : Type 1 where
  pub log : p.Outside → Log
  pub Same : p.Outside → Type 0
  pub kept-snapshot : (o : p.Outside) → Same o → Same (p.snapshot ws o).1
  pub kept-read_file : (path : Bytes) (o : p.Outside) → Same o → Same (p.read_file ws path o).1
  pub kept-file_change :
      (c : FileChange) (b : Bytes) (o : p.Outside) → Same o → Same (p.file_change c b o).1
  pub log-snapshot : (o : p.Outside) → log (p.snapshot ws o).1 ≡ log o
  pub log-read_file : (path : Bytes) (o : p.Outside) → log (p.read_file ws path o).1 ≡ log o
  pub log-turn_done : (r : TurnResult) (o : p.Outside) → log (p.turn_done r o).1 ≡ log o
  pub read_is :
      (path c : Bytes) (o : p.Outside) → Same o → (p.read_file ws path o).0 ≡ ok c → c ≡ text path
  pub pushed :
      (c : FileChange) (b : Bytes) (o : p.Outside)
      → (p.file_change c b o).0 ≡ ok tt
      → log (p.file_change c b o).1 ≡ log o ++ (c, b) ∷ []
  pub not_pushed :
      (c : FileChange) (b : Bytes) (o : p.Outside) (e : Error)
      → (p.file_change c b o).0 ≡ err e
      → log (p.file_change c b o).1 ≡ log o

-- A deletion goes with no content.
abbrev pub with_content : (Bytes → Bytes) → FileChange → FileChange × Bytes
with_content text c = (c, if bytes_eq c.op change_delete then [] else text c.path)

module _ (p : Deps) (ws : p.Workspace) (text : Bytes → Bytes) (n : Pushes p ws text) where
  content_of_lem :
      (c : FileChange) (o : p.Outside)
      → n.Same o
      → n.Same (content_of p ws c o).1
        × (n.log (content_of p ws c o).1 ≡ n.log o)
        × ((b : Bytes) → (content_of p ws c o).0 ≡ ok b → (c, b) ≡ with_content text c)
  content_of_lem c o same = go (bytes_eq c.op change_delete) refl
    where
      go :
          (t : Bool)
          → bytes_eq c.op change_delete ≡ t
          → n.Same (content_of p ws c o).1
            × (n.log (content_of p ws c o).1 ≡ n.log o)
            × ((b : Bytes) → (content_of p ws c o).0 ≡ ok b → (c, b) ≡ with_content text c)
      go true h = rw h (same, refl, λ b e. cc e)
      go false h = rw h (
        n.kept-read_file c.path o same,
        n.log-read_file c.path o,
        λ b e. ap (λ x. (c, x)) (n.read_is c.path b o same e),
      )

  abbrev Sent : List FileChange → p.Outside → Result (Unit {0}) → p.Outside → Type 0
  Sent cs o r o' =
      (done left : List FileChange) × (cs ≡ done ++ left)
      × (n.log o' ≡ n.log o ++ map (with_content text) done)
      × (((r ≡ ok tt) × (left ≡ [])) ⊎ ((e : Error) × (r ≡ err e) × (left ≢ [])))

  push_changes_lem :
      (cs : List FileChange) (o : p.Outside)
      → n.Same o
      → Sent cs o (push_changes p ws cs o).0 (push_changes p ws cs o).1
  unfolding push_changes
  push_changes_lem [] o same = ([], [], refl, sym (append-nil (n.log o)), inl (refl, refl))
  push_changes_lem (c ∷ cs) o same =
      let (same₁, kept, is) = content_of_lem c o same in
      elim (Result-cases (content_of p ws c o).0) [
        | inl (e, h) ↦
            rw h ([], c ∷ cs, refl, kept ∙ sym (append-nil (n.log o)), inr (e, refl, λ x. cc x))
        | inr (b, h) ↦
            let o₁ = (content_of p ws c o).1 in
            rw h (elim (Result-cases (p.file_change c b o₁).0) [
              | inl (e, q) ↦ rw q (
                [],
                c ∷ cs,
                refl,
                n.not_pushed c b o₁ e q ∙ kept ∙ sym (append-nil (n.log o)),
                inr (e, refl, λ x. cc x),
              )
              | inr (u, q) ↦
                  let (done, left, parts, log, end) =
                    push_changes_lem cs (p.file_change c b o₁).1
                      (n.kept-file_change c b o₁ same₁) in
                  rw q (
                    c ∷ done,
                    left,
                    ap (λ x. c ∷ x) parts,
                    log
                        ∙ ap (λ x. x ++ map (with_content text) done)
                            (n.pushed c b o₁ q ∙ ap (λ x. x ++ (c, b) ∷ []) kept)
                        ∙ append_assoc (n.log o) ((c, b) ∷ []) (map (with_content text) done)
                        ∙ ap (λ x. n.log o ++ x ∷ map (with_content text) done) (is b h),
                    end,
                  )
            ])
      ]

  -- When a turn is finished over files that do not change, the changes of the diff between the
  -- baseline and the new snapshot go to the client in their order, each with its content: all of
  -- them, and then the baseline advances to the snapshot and the result is that of TurnDone; or not
  -- all, and then an error is returned and the baseline stays. If the snapshot fails, nothing
  -- is sent and the baseline stays.
  pub finish_turn_pushes :
      (res : Option TurnResult) (s : Service p)
      → n.Same s.outside
      → let r = (finish_turn p ws res s).0 in
        let s' = (finish_turn p ws res s).1 in
        ((e : Error) × ((p.snapshot ws s.outside).0 ≡ err e)
          × (r ≡ err e)
          × (s'.pre_turn ≡ s.pre_turn)
          × (n.log s'.outside ≡ n.log s.outside))
        ⊎ ((after : Manifest) × (done left : List FileChange) × ((p.snapshot ws s.outside).0
              ≡ ok after)
            × (diff s.pre_turn after ≡ done ++ left)
            × (n.log s'.outside ≡ n.log s.outside ++ map (with_content text) done)
            × (((left ≡ [])
                  × (s'.pre_turn ≡ after)
                  × (o : p.Outside) × (r ≡ (p.turn_done (result_or_zero p res) o).0))
                ⊎ ((left ≢ []) × (e : Error) × (r ≡ err e) × (s'.pre_turn ≡ s.pre_turn))))
  unfolding finish_turn
  finish_turn_pushes res s same = elim (Result-cases (p.snapshot ws s.outside).0) [
    | inl (e, h) ↦ rw h (inl (e, refl, refl, refl, n.log-snapshot s.outside))
    | inr (after, h) ↦
        let o₁ = (p.snapshot ws s.outside).1 in
        rw h (
          let (done, left, parts, log, end) =
            push_changes_lem (diff s.pre_turn after) o₁ (n.kept-snapshot s.outside same) in
          elim (Result-cases (push_changes p ws (diff s.pre_turn after) o₁).0) [
            | inl (e, q) ↦
                let some_left : left ≢ [] = elim end [
                  | inl (good, _) ↦ cc (q, good)
                  | inr (_, _, more) ↦ more
                ] in
                rw q (
                  inr (
                    after,
                    done,
                    left,
                    refl,
                    parts,
                    log ∙ ap (λ x. x ++ map (with_content text) done) (n.log-snapshot s.outside),
                    inr (some_left, e, refl, refl),
                  ))
            | inr (u, q) ↦
                let none_left : left ≡ [] = elim end [
                  | inl (_, nil) ↦ nil
                  | inr (e, bad, _) ↦ cc (q, bad)
                ] in
                rw q (
                  inr (
                    after,
                    done,
                    left,
                    refl,
                    parts,
                    n.log-turn_done (result_or_zero p res)
                          (push_changes p ws (diff s.pre_turn after) o₁).1
                        ∙ log
                        ∙ ap (λ x. x ++ map (with_content text) done) (n.log-snapshot s.outside),
                    inl (none_left, refl, (push_changes p ws (diff s.pre_turn after) o₁).1, refl),
                  ))
          ])
  ]
