-- ===== src/Programs/Client/Wiring.antt =====
-- The application of cmd/client/main.go: clientapp.App over the connection to the server, the
-- project on disk and the terminal.
pub mod Uploading
use claude_share.Base.{ℕ, Bool, Bytes, codes, Option, none, some, ◌++◌, Error, Result, refl, ◌≡◌}
use claude_share.Base.Exec.{Exec}
use claude_share.Base.Disk.{Disk, World}
use claude_share.Protocol.{Json}
use claude_share.Fsutil.Walk.{Node}
use claude_share.Localfs.{apply, read_project_file}
use claude_share.Localfs.Open.{Project, project_manifest}
use claude_share.Terminal
use claude_share.Terminal.{Renderer}
use claude_share.Ws.Conn.{SecureChannel, Socket, Conn}
use claude_share.Ws.Client
use claude_share.ClientApp.{Ports}
use claude_share.ClientApp.Converges.{OnDisk}
use claude_share.ClientApp.Inbound.{Shows}

-- The connection, the disk and the terminal.
pub record Desk (chan : SecureChannel) (sock : Socket) : Type 0 where
  pub conn : Conn chan sock
  pub disk : Disk
  pub screen : Renderer

module _ {chan : SecureChannel} {sock : Socket} {A : Type 0} where
  abbrev on_conn : Exec (Conn chan sock) A → Exec (Desk chan sock) A
  on_conn m s = let (r, c) = m s.conn in (r, record s { conn = c })

  abbrev on_disk : Exec Disk A → Exec (Desk chan sock) A
  on_disk m s = let (r, d) = m s.disk in (r, record s { disk = d })

abbrev in_screen :
    {chan : SecureChannel} {sock : Socket} → Exec Renderer Unit → Exec (Desk chan sock) Unit
in_screen m s = let (r, t) = m s.screen in (r, record s { screen = t })

abbrev on_screen :
    {chan : SecureChannel} {sock : Socket} → (Renderer → Renderer) → Desk chan sock → Desk chan sock
on_screen f s = record s { screen = f s.screen }

-- What the operating system and the library answer: the tree that WalkDir finds, SHA-256, the text
-- of an error, strings.TrimSpace, and how a cost is tested and printed.
pub record Environment : Type 0 where
  pub getwd : Result Bytes
  pub tree_at : Disk → Result Node
  pub sum : Bytes → Bytes
  pub text_of : Error → Bytes
  pub trim_space : Bytes → Bytes
  pub is_positive : ℕ → Bool
  pub four_places : ℕ → Bytes

abbrev pub ports : SecureChannel → Socket → Json → World → Environment → Project → Ports
ports chan sock json w env p = record {
  Outside = Desk chan sock;
  session_start = λ name entries. on_conn (Client.session_start json name entries);
  upload_blob = λ hash content. on_conn (Client.upload_blob json hash content);
  sync_done = on_conn (Client.sync_done json);
  prompt = λ text. on_conn (Client.prompt json text);
  session_end = on_conn (Client.session_end json);
  manifest = λ s. (project_manifest env.sum p (env.tree_at s.disk), s);
  read_file = λ path. on_disk (read_project_file w env.getwd p.root path);
  apply = λ ch content. on_disk (apply w env.getwd p.root ch content);
  show_event = λ d. in_screen (Terminal.stream_event d);
  show_change = λ op path. on_screen (Terminal.file_changed op path);
  show_turn = λ d. in_screen (Terminal.turn_done env.is_positive env.four_places d);
  show_failure = λ path e.
      on_screen (Terminal.server_error (codes "apply " ++ path ++ codes ": " ++ env.text_of e));
  show_error = λ msg. on_screen (Terminal.server_error msg);
  trim_space = env.trim_space;
}

-- The application that main makes has its project on the disk.
abbrev pub ports-OnDisk :
    (chan : SecureChannel) (sock : Socket) (json : Json) (w : World) (env : Environment)
    (p : Project)
    → ((t : ℕ) → w.faults t ≡ none)
    → OnDisk (ports chan sock json w env p) w env.getwd p.root
ports-OnDisk chan sock json w env p works = record {
  works = works;
  disk = λ s. s.disk;
  apply_is = λ ch c o. (refl, refl);
  disk-show_change = λ op path o. refl;
}

-- Its terminal fails on nothing but a nil pointer.
pub ports-Shows :
    (chan : SecureChannel) (sock : Socket) (json : Json) (w : World) (env : Environment)
    (p : Project)
    → Shows (ports chan sock json w env p)
unfolding Terminal.stream_event Terminal.turn_done
ports-Shows chan sock json w env p = record { event_shown = λ d o. refl; turn_shown = λ d o. refl }
