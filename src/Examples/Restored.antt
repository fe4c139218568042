-- ===== src/Examples/Restored.antt =====
-- A project of one file that is uploaded to a server with an empty store.
use claude_share.Base.{
  ◌≡◌, refl, true, false, Bytes, bytes_eq, bytes_eq_iff, codes, none, [], ◌∷◌, Result, ok, err,
  foreign, arith,
}
use claude_share.Base.Dict
use claude_share.Base.Dict.{bytes_key}
use claude_share.Domain.{Manifest}
use claude_share.Fsutil.Hash.{hash_content}
use claude_share.Fsutil.Path.{clean, join, abs, names, show, render, walk, split_path, is_abs}
use claude_share.Fsutil.SafeJoin.{safe_join, is_unsafe, escapes, has_prefix}
use claude_share.Fsstore.Blobs.Stored.{valid_hash-hash_content}
use claude_share.Fsstore.Workspace.Written.{last_to}
use claude_share.Session.{Service}
use claude_share.Session.Missing.{has_hash}
use claude_share.Programs.Server.{Flags, workspace_dir}
use claude_share.Programs.Server.Wiring.{Others, deps}
use claude_share.EndToEnd.Sync.{sync, CanSync, Starts, IsRestored}
use claude_share.EndToEnd.Sync.Restored.{sync_restores}
use claude_share.Examples.Store.{sum, sum-IsSha256, working, hi, empty, empty-IsAddressed}

abbrev flags : Flags
flags = record {
  addr = codes "127.0.0.1:8443";
  data_dir = codes "/d";
  allow_public = false;
  claude_bin = codes "claude";
  permission_mode = codes "acceptEdits";
  max_sessions = 8;
}

abbrev no_cwd : Result Bytes
no_cwd = err (foreign [])

-- An agent that does nothing, and a notifier that drops all.
abbrev others : Others
others = record {
  State = Bytes;
  Agent = Bytes;
  new_id = λ o. (codes "i", o);
  remove_all = λ dir d. (ok tt, d);
  make_all = λ dir d. (ok tt, d);
  tree_at = λ dir d. err (foreign []);
  start = λ id dir s. (ok id, s);
  send = λ a text s. (ok tt, s);
  interrupt = λ a s. (ok tt, s);
  close_agent = λ a s. (ok tt, s);
  stream_event = λ ev o. (ok tt, o);
  file_change = λ c content o. (ok tt, o);
  turn_done = λ r o. (ok tt, o);
}

others-Starts : Starts others
others-Starts = record {
  removes = λ dir d. refl;
  makes = λ dir d. refl;
  starts = λ id dir d o. (id, o, refl);
}

abbrev project : Manifest
project = record {
  entries = record { path = codes "a"; hash = hash_content sum hi; size = 2; mode = 420 } ∷ [];
}

abbrev fresh : Service (deps sum working working no_cwd flags others)
fresh = record {
  session_id = [];
  manifest = record { entries = [] };
  ws = none;
  agent = none;
  pre_turn = record { entries = [] };
  signal = none;
  pumping = false;
  outside = record { store = empty; work = empty; rest = [] };
}

is_right : (h : Bytes) → has_hash h project.entries ≡ true → hash_content sum hi ≡ h
unfolding has_hash
is_right h has = ground (arith, has, bytes_eq_iff (hash_content sum hi) h)

project-CanSync : CanSync sum no_cwd (workspace_dir flags (codes "i")) project (λ h. hi)
unfolding safe_join is_unsafe escapes has_prefix clean join abs names show render walk split_path
    is_abs bytes_eq workspace_dir
project-CanSync = record {
  valid = (valid_hash-hash_content sum hi sum-IsSha256, tt);
  right = is_right;
  safe = ((codes "/d/sessions/i/workspace/a", refl), tt);
}

sync_restores_example :
    ((sync (deps sum working working no_cwd flags others) (λ h. hi) (codes "p") project fresh).0
      ≡ ok (codes "i"))
    × ((k : Bytes)
        → IsRestored sum
            (last_to no_cwd (workspace_dir flags (codes "i")) k project.entries)
            (Dict.get k [])
            (Dict.get k
              (sync
                (deps sum working working no_cwd flags others)
                (λ h. hi)
                (codes "p")
                project
                fresh).1.outside.work.files))
unfolding Dict.get
sync_restores_example =
    sync_restores sum working working no_cwd flags others (λ t. refl) others-Starts (λ t. refl)
      (codes "p") project (λ h. hi) fresh project-CanSync
      (record { addressed = empty-IsAddressed; settled = λ t. refl }) refl
