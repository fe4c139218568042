-- ===== src/Programs/Client/Wiring/Uploading.antt =====
-- The uploads of the application that cmd/client/main.go makes, with a record of those that
-- succeeded beside its state.
use claude_share.Base.{◌≡◌, refl, ap, ◌∙◌, Bytes, List, [], ◌∷◌, ◌++◌, Result, ok, err}
use claude_share.Base.Dict.{Dict, bytes_key}
use claude_share.Base.Exec.{Exec}
use claude_share.Base.Disk.{Disk, World}
use claude_share.Base.Disk.Reads.{content_at, read-kept, read_is}
use claude_share.Fsutil.SafeJoin.{safe_join}
use claude_share.Localfs.{read_project_file}
use claude_share.Localfs.Open.{Project}
use claude_share.Protocol.{Json}
use claude_share.Ws.Conn.{SecureChannel, Socket}
use claude_share.ClientApp.{Ports}
use claude_share.ClientApp.Upload.{Uploads}
use claude_share.Programs.Client.Wiring.{Environment, ports}

abbrev beside : {S L A : Type 0} → Exec S A → Exec (S × L) A
beside m (s, l) = let (r, s') = m s in (r, (s', l))

abbrev noted : {L : Type 0} → Result (Unit {0}) → L → List L → List L
noted (ok _) x log = log ++ x ∷ []
noted (err e) x log = log

-- The same ports; an upload that succeeds is noted.
abbrev pub with_log : Ports → Ports
with_log p = record {
  Outside = p.Outside × List (Bytes × Bytes);
  session_start = λ name entries. beside (p.session_start name entries);
  upload_blob = λ h c (o, log). let (r, o') = p.upload_blob h c o in (r, (o', noted r (h, c) log));
  sync_done = beside p.sync_done;
  prompt = λ text. beside (p.prompt text);
  session_end = beside p.session_end;
  manifest = beside p.manifest;
  read_file = λ path. beside (p.read_file path);
  apply = λ ch c. beside (p.apply ch c);
  show_event = λ d. beside (p.show_event d);
  show_change = λ op path (o, log). (p.show_change op path o, log);
  show_turn = λ d. beside (p.show_turn d);
  show_failure = λ path e (o, log). (p.show_failure path e o, log);
  show_error = λ msg (o, log). (p.show_error msg o, log);
  trim_space = p.trim_space;
}

-- The content of a project's file, for the files of the disk.
abbrev pub text_of : Result Bytes → Bytes → Dict Bytes Bytes → Bytes → Bytes
text_of getwd root files rel = content_at files (safe_join getwd root rel)

module _ (w : World) (getwd : Result Bytes) (root rel : Bytes) (d : Disk) where
  pub read_project_file-kept : (read_project_file w getwd root rel d).1.files ≡ d.files
  unfolding read_project_file
  read_project_file-kept = read-kept w (safe_join getwd root rel) d

  pub read_project_file_is :
      (c : Bytes)
      → (read_project_file w getwd root rel d).0 ≡ ok c
      → c ≡ text_of getwd root d.files rel
  unfolding read_project_file
  read_project_file_is c h = read_is w (safe_join getwd root rel) c d h

pub noted_ok :
    {L : Type 0} (r : Result (Unit {0})) (x : L) (log : List L)
    → r ≡ ok tt
    → noted r x log ≡ log ++ x ∷ []
noted_ok r x log h = rw h refl

-- What the upload relies on holds for the application that main makes, over the files that its
-- disk has.
abbrev pub ports-Uploads :
    (chan : SecureChannel) (sock : Socket) (json : Json) (w : World) (env : Environment)
    (p : Project) (files : Dict Bytes Bytes)
    → Uploads (with_log (ports chan sock json w env p)) (text_of env.getwd p.root files)
ports-Uploads chan sock json w env p files = record {
  log = λ o. o.1;
  Same = λ o. o.0.disk.files ≡ files;
  kept-read_file = λ path o same. read_project_file-kept w env.getwd p.root path o.0.disk ∙ same;
  kept-upload_blob = λ h c o same. same;
  log-read_file = λ path o. refl;
  read_is = λ path c o same h.
      read_project_file_is w env.getwd p.root path o.0.disk c h
      ∙ ap (λ f. text_of env.getwd p.root f path) same;
  uploaded =
      λ h c o done. noted_ok ((ports chan sock json w env p).upload_blob h c o.0).0 (h, c) o.1 done;
}
