-- ===== src/Programs/Server/Wiring/Pushing.antt =====
-- What the session service that cmd/server/main.go makes pushes, with a record of the pushes that
-- succeeded beside the state of the notifier.
use claude_share.Base.{◌≡◌, refl, ap, ◌∙◌, Bytes, [], ◌∷◌, ◌++◌, Error, Result, ok, err}
use claude_share.Base.Dict.{Dict, bytes_key}
use claude_share.Base.Exec.{Exec}
use claude_share.Base.Disk.{Disk, World}
use claude_share.Base.Disk.Reads.{content_at, read-kept, read_is}
use claude_share.Domain.{FileChange}
use claude_share.Fsutil.SafeJoin.{safe_join}
use claude_share.Fsstore.Workspace.{read_workspace_file}
use claude_share.Session.Turn.{Pushes, Log}
use claude_share.Programs.Server.{Flags}
use claude_share.Programs.Server.Wiring.{Others, deps}

abbrev beside : {S A : Type 0} → Exec S A → Exec (S × Log) A
beside m (s, log) = let (r, s') = m s in (r, (s', log))

abbrev beside_work : {S A : Type 0} → Exec (Disk × S) A → Exec (Disk × (S × Log)) A
beside_work m (d, (s, log)) = let (r, (d', s')) = m (d, s) in (r, (d', (s', log)))

abbrev noted : Result (Unit {0}) → FileChange × Bytes → Log → Log
noted (ok _) x log = log ++ x ∷ []
noted (err e) x log = log

-- The same agent and notifier; a push that succeeds is noted.
abbrev pub with_log : Others → Others
with_log q = record {
  State = q.State × Log;
  Agent = q.Agent;
  new_id = λ (s, log). let (id, s') = q.new_id s in (id, (s', log));
  remove_all = q.remove_all;
  make_all = q.make_all;
  tree_at = q.tree_at;
  start = λ id dir. beside_work (q.start id dir);
  send = λ a text. beside_work (q.send a text);
  interrupt = λ a. beside_work (q.interrupt a);
  close_agent = λ a. beside_work (q.close_agent a);
  stream_event = λ ev. beside (q.stream_event ev);
  file_change = λ c b (s, log). let (r, s') = q.file_change c b s in (r, (s', noted r (c, b) log));
  turn_done = λ r. beside (q.turn_done r);
}

-- The content of a workspace's file, for the files of the disk.
abbrev pub text_of : Result Bytes → Bytes → Dict Bytes Bytes → Bytes → Bytes
text_of getwd dir files rel = content_at files (safe_join getwd dir rel)

module _ (w : World) (getwd : Result Bytes) (dir rel : Bytes) (d : Disk) where
  pub read_workspace_file-kept : (read_workspace_file w getwd dir rel d).1.files ≡ d.files
  unfolding read_workspace_file
  read_workspace_file-kept = read-kept w (safe_join getwd dir rel) d

  pub read_workspace_file_is :
      (c : Bytes)
      → (read_workspace_file w getwd dir rel d).0 ≡ ok c
      → c ≡ text_of getwd dir d.files rel
  unfolding read_workspace_file
  read_workspace_file_is c h = read_is w (safe_join getwd dir rel) c d h

pub noted_ok :
    (r : Result (Unit {0})) (x : FileChange × Bytes) (log : Log)
    → r ≡ ok tt
    → noted r x log ≡ log ++ x ∷ []
noted_ok r x log h = rw h refl

pub noted_err :
    (r : Result (Unit {0})) (x : FileChange × Bytes) (log : Log) (e : Error)
    → r ≡ err e
    → noted r x log ≡ log
noted_err r x log e h = rw h refl

-- What finishTurn relies on holds for the service that main makes, over the files that the disk of
-- the workspaces has.
abbrev pub deps-Pushes :
    (sum : Bytes → Bytes) (b w : World) (getwd : Result Bytes) (flags : Flags) (q : Others)
    (dir : Bytes) (files : Dict Bytes Bytes)
    → Pushes (deps sum b w getwd flags (with_log q)) dir (text_of getwd dir files)
deps-Pushes sum b w getwd flags q dir files = record {
  log = λ o. o.rest.1;
  Same = λ o. o.work.files ≡ files;
  kept-snapshot = λ o same. same;
  kept-read_file = λ path o same. read_workspace_file-kept w getwd dir path o.work ∙ same;
  kept-file_change = λ c x o same. same;
  log-snapshot = λ o. refl;
  log-read_file = λ path o. refl;
  log-turn_done = λ r o. refl;
  read_is = λ path c o same h.
      read_workspace_file_is w getwd dir path o.work c h ∙ ap (λ f. text_of getwd dir f path) same;
  pushed = λ c x o done. noted_ok (q.file_change c x o.rest.0).0 (c, x) o.rest.1 done;
  not_pushed = λ c x o e failed. noted_err (q.file_change c x o.rest.0).0 (c, x) o.rest.1 e failed;
}
