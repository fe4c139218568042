-- ===== src/Programs/Server/Wiring.antt =====
-- The session service of cmd/server/main.go: app.NewService over the blob store, the workspaces of
-- fsstore, the agent runner and the notifier of a connection.
pub mod Pushing
use claude_share.Base.{Bytes, Result}
use claude_share.Base.Exec.{Exec}
use claude_share.Base.Disk.{Disk, World}
use claude_share.Domain.{FileChange, AgentEvent, TurnResult}
use claude_share.Fsutil.Walk.{Node}
use claude_share.Fsstore.Blobs
use claude_share.Fsstore.Workspace
use claude_share.Session.{Deps}
use claude_share.Programs.Server.{Flags, workspace_dir}

-- What is not in the files of the server: the agent, which works in a workspace, the connection's
-- notifier, the ids, and the calls of the operating system on directories.
pub record Others : Type 1 where
  pub State : Type 0
  pub Agent : Type 0
  pub new_id : State → Bytes × State
  pub remove_all : Bytes → Exec Disk Unit
  pub make_all : Bytes → Exec Disk Unit
  pub tree_at : Bytes → Disk → Result Node
  pub start : Bytes → Bytes → Exec (Disk × State) Agent
  pub send : Agent → Bytes → Exec (Disk × State) Unit
  pub interrupt : Agent → Exec (Disk × State) Unit
  pub close_agent : Agent → Exec (Disk × State) Unit
  pub stream_event : AgentEvent → Exec State Unit
  pub file_change : FileChange → Bytes → Exec State Unit
  pub turn_done : TurnResult → Exec State Unit

-- The blob store's disk, that of the workspaces, and the rest.
pub record Machine (q : Others) : Type 0 where
  pub store : Disk
  pub work : Disk
  pub rest : q.State

module _ {q : Others} {A : Type 0} where
  abbrev pub in_store : Exec Disk A → Exec (Machine q) A
  in_store m s = let (r, d) = m s.store in (r, record s { store = d })

  abbrev pub in_work : Exec Disk A → Exec (Machine q) A
  in_work m s = let (r, d) = m s.work in (r, record s { work = d })

  abbrev pub in_rest : Exec q.State A → Exec (Machine q) A
  in_rest m s = let (r, o) = m s.rest in (r, record s { rest = o })

  -- The agent sees the workspace.
  abbrev pub by_agent : Exec (Disk × q.State) A → Exec (Machine q) A
  by_agent m s = let (r, (d, o)) = m (s.work, s.rest) in (r, record s { work = d; rest = o })

  abbrev pub in_files : Exec (Disk × Disk) A → Exec (Machine q) A
  in_files m s = let (r, (b, d)) = m (s.store, s.work) in (r, record s { store = b; work = d })

-- `sum` is SHA-256, `b` and `w` are the failures of the two disks.
abbrev pub deps : (Bytes → Bytes) → World → World → Result Bytes → Flags → Others → Deps
deps sum b w getwd flags q = record {
  Outside = Machine q;
  Workspace = Bytes;
  Agent = q.Agent;
  has = λ hash. in_store (Blobs.has sum b hash);
  put = λ hash content. in_store (Blobs.put sum b hash content);
  new_id = λ s. let (id, o) = q.new_id s.rest in (id, record s { rest = o });
  new_workspace =
      λ id. in_work (Workspace.new_workspace q.remove_all q.make_all (workspace_dir flags id));
  dir = λ dir. dir;
  materialize = λ dir m. in_files (Workspace.materialize (Blobs.get sum b) w getwd dir m);
  snapshot = λ dir s. (Workspace.snapshot sum (q.tree_at dir s.work), s);
  read_file = λ dir path. in_work (Workspace.read_workspace_file w getwd dir path);
  remove = λ dir. in_work (Workspace.remove q.remove_all q.make_all dir);
  start = λ id dir. by_agent (q.start id dir);
  send = λ a text. by_agent (q.send a text);
  interrupt = λ a. by_agent (q.interrupt a);
  close_agent = λ a. by_agent (q.close_agent a);
  stream_event = λ ev. in_rest (q.stream_event ev);
  file_change = λ c content. in_rest (q.file_change c content);
  turn_done = λ r. in_rest (q.turn_done r);
}
