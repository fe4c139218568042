-- ===== src/ClientApp/Converges.antt =====
-- A turn's changes at the client: finishTurn of internal/core/app/session.go pushes them, readLoop
-- of internal/core/clientapp/clientapp.go hands each to Apply of internal/adapters/localfs/localfs.go.
use claude_share.Base.{
  ℕ, ◌≡◌, ◌≢◌, inl, inr, refl, ap, ◌∙◌, Bool, true, false, Bytes, bytes_eq, bytes_eq_iff,
  bytes_eq_refl, Option, none, some, List, [], ◌∷◌, map, if◌then◌else◌, length, arith, Result, ok,
  Bool-cases, All,
}
use claude_share.Base.Dict
use claude_share.Base.Dict.{bytes_key}
use claude_share.Base.Exec.{Exec, modify, bind-run, ◌>>=◌}
use claude_share.Base.Sort.{find, NodupKeys}
use claude_share.Base.Disk.{Disk, World}
use claude_share.Domain.{FileChange, change_delete}
use claude_share.Fsutil.Diff.Find.{change_path}
use claude_share.Fsutil.SafeJoin.{safe_join}
use claude_share.Protocol.MessageType
use claude_share.Localfs.{apply}
use claude_share.Localfs.Atomic.{changed}
use claude_share.Base.Disk.Works.{Put}
use claude_share.Localfs.Applied.{HasNoTemp, IsNoTemp, apply-Put, Put-HasNoTemp}
use claude_share.Session.Turn.{with_content}
use claude_share.ClientApp.{
  Ports, App, ServerMessage, apply_change, handle_message, read_round, read_loop,
}

-- The message that a pushed change arrives as, on some stream.
abbrev pub change_message : (FileChange → ℕ) → FileChange × Bytes → ServerMessage
change_message stream x = record {
  typ = MessageType.file_change;
  session_ready = none;
  sync_request = none;
  stream_event = none;
  file_change = some (record {
    op = x.0.op;
    path = x.0.path;
    mode = x.0.mode;
    hash = x.0.hash;
    stream_id = stream x.0;
    size = length x.1;
  });
  content = x.1;
  turn_done = none;
  error = none;
}

-- The client's project is on a disk on which no call fails; what is shown leaves it alone.
pub record OnDisk (p : Ports) (w : World) (getwd : Result Bytes) (root : Bytes) : Type 0 where
  pub works : (t : ℕ) → w.faults t ≡ none
  pub disk : p.Outside → Disk
  pub apply_is :
      (ch : FileChange) (c : Bytes) (o : p.Outside)
      → ((p.apply ch c o).0 ≡ (apply w getwd root ch c (disk o)).0)
        × (disk (p.apply ch c o).1 ≡ (apply w getwd root ch c (disk o)).1)
  pub disk-show_change : (op path : Bytes) (o : p.Outside) → disk (p.show_change op path o) ≡ disk o

-- Where the paths of two manifests lie: SafeJoin accepts them, and no two are one file.
pub record Placed (w : World) (getwd : Result Bytes) (root : Bytes) (Listed : Bytes → Type 0)
    : Type 0 where
  pub place : Bytes → Bytes
  pub joined : (k : Bytes) → Listed k → safe_join getwd root k ≡ ok (place k)
  pub place-injective : (j k : Bytes) → Listed j → Listed k → place j ≡ place k → j ≡ k
  pub not_temp : (k : Bytes) → Listed k → IsNoTemp w (place k)

-- What becomes of a file by the change that a list has for it.
abbrev pub outcome : (Bytes → Bytes) → Option FileChange → Option Bytes → Option Bytes
outcome text none before = before
outcome text (some c) before = if bytes_eq c.op change_delete then none else some (text c.path)

module _ (p : Ports) (w : World) (getwd : Result Bytes) (root : Bytes) (on : OnDisk p w getwd root)
    (stream : FileChange → ℕ) where
  abbrev pub files_of : App p → Disk
  files_of s = on.disk s.outside

  handle_change :
      (ch : FileChange) (content path : Bytes) (s : App p)
      → safe_join getwd root ch.path ≡ ok path
      → HasNoTemp w (files_of s)
      → IsNoTemp w path
      → (s' : App p) × (handle_message p (change_message stream (ch, content)) s ≡ (ok true, s'))
        × (s'.reading ≡ s.reading)
        × Put path (changed ch content) (files_of s) (files_of s')
  unfolding handle_message apply_change bytes_eq
  handle_change ch content path s placed free apart =
      let (done, set) =
        apply-Put w on.works getwd root path content ch (files_of s) placed free apart in
      let (same, there) = on.apply_is ch content s.outside in
      let o = (p.apply ch content s.outside).1 in
      let ran : (p.apply ch content s.outside).0 ≡ ok tt = same ∙ done in
      (
        record s { outside = p.show_change ch.op ch.path o },
        rw ran refl,
        refl,
        λ k. rw (on.disk-show_change ch.op ch.path o, there) (set k),
      )

  read_loop_step :
      (m : ServerMessage) (rest : List (Result ServerMessage)) (s s' : App p)
      → s.reading ≡ true
      → handle_message p m s ≡ (ok true, s')
      → read_loop p (ok m ∷ rest) s ≡ read_loop p rest s'
  unfolding read_loop read_round
  read_loop_step m rest s s' h run =
      let more : Bool → Exec (App p) Unit =
        λ go_on. if go_on then read_loop p rest else modify (λ t. record t { reading = false }) in
      let start : read_loop p (ok m ∷ rest) s ≡ (read_round p (ok m) >>= more) s = simp h in
      start ∙ bind-run (read_round p (ok m)) more s s' true run

  -- What the reader gets for the changes that were pushed.
  abbrev pub messages : List (FileChange × Bytes) → List (Result ServerMessage)
  messages log = map (λ x. ok (change_message stream x)) log

  changed-with_content :
      (text : Bytes → Bytes) (c : FileChange) (before : Option Bytes)
      → changed c (with_content text c).1 ≡ outcome text (some c) before
  changed-with_content text c before = ground arith

  module _ (text : Bytes → Bytes) {Listed : Bytes → Type 0} (at : Placed w getwd root Listed) where
    abbrev pub Made : List FileChange → Disk → Disk → Type 0
    Made cs d d' =
        ((k : Bytes)
          → Listed k
          → Dict.get (at.place k) d'.files
            ≡ outcome text (find change_path k cs) (Dict.get (at.place k) d.files))
        × ((f : Bytes)
            → ((k : Bytes) → Listed k → at.place k ≢ f)
            → Dict.get f d'.files ≡ Dict.get f d.files)

    Made-cons :
        (c : FileChange) (cs : List FileChange) (d d₁ d₂ : Disk)
        → Listed c.path
        → find change_path c.path cs ≡ none
        → Put (at.place c.path) (outcome text (some c) none) d d₁
        → Made cs d₁ d₂
        → Made (c ∷ cs) d d₂
    unfolding find
    Made-cons c cs d d₁ d₂ here once set made = (
      λ k listed. elim (Bool-cases (bytes_eq c.path k)) [
        | inl q ↦
            let this : c.path ≡ k = (bytes_eq_iff c.path k).0 q in
            rw (q, ← this)
              (made.0 c.path here
                ∙ rw once (set (at.place c.path) ∙ rw (bytes_eq_refl (at.place c.path)) refl))
        | inr q ↦
            let apart : bytes_eq (at.place c.path) (at.place k) ≡ false = ground (
              arith,
              bytes_eq_iff (at.place c.path) (at.place k),
              at.place-injective c.path k here listed,
              bytes_eq_iff c.path k,
            ) in
            rw q (
              made.0 k listed
              ∙ ap (outcome text (find change_path k cs)) (set (at.place k) ∙ rw apart refl))
      ],
      λ f outside.
          ground
            (arith, made.1 f outside, set f, bytes_eq_iff (at.place c.path) f, outside c.path here),
    )

    pub read_loop-Made :
        (cs : List FileChange) (s : App p)
        → s.reading ≡ true
        → HasNoTemp w (files_of s)
        → NodupKeys change_path cs
        → All (λ c. Listed c.path) cs
        → let s' = (read_loop p (messages (map (with_content text) cs)) s).1 in
          Made cs (files_of s) (files_of s') × HasNoTemp w (files_of s') × (s'.reading ≡ true)
    unfolding read_loop find
    read_loop-Made [] s r free nodup all = ((λ k listed. refl, λ f outside. refl), free, r)
    read_loop-Made (c ∷ cs) s r free nodup all =
        let content = (with_content text c).1 in
        let path = at.place c.path in
        let apart = at.not_temp c.path all.0 in
        let (s₁, run, on_it, set) =
          handle_change c content path s (at.joined c.path all.0) free apart in
        let free₁ =
          Put-HasNoTemp w on.works path (changed c content) (files_of s) (files_of s₁) set free
            apart in
        let (made, free', r') = read_loop-Made cs s₁ (on_it ∙ r) free₁ nodup.1 all.1 in
        let set' : Put path (outcome text (some c) none) (files_of s) (files_of s₁) =
          λ k. rw (← changed-with_content text c none) (set k) in
        rw
          (read_loop_step (change_message stream (c, content))
            (messages (map (with_content text) cs)) s s₁ r run)
          (
            Made-cons c cs (files_of s) (files_of s₁)
                (files_of (read_loop p (messages (map (with_content text) cs)) s₁).1) all.0 nodup.0
                set' made,
            free',
            r',
          )
