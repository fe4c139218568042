-- ===== src/Examples/Wired.antt =====
-- The session service and the application that the two programs make, each with one file.
use claude_share.Base.{
  ◌≡◌, ◌≢◌, ◌⊎◌, refl, true, false, Bytes, bytes_eq, bytes_lt, codes, none, some, List, [], ◌∷◌,
  ◌++◌, map, Result, Error, ok, err, foreign,
}
use claude_share.Base.Dict
use claude_share.Base.Dict.{Dict, bytes_key}
use claude_share.Base.Sort.{sort, insert}
use claude_share.Base.Disk.{Disk, World}
use claude_share.Base.Disk.Reads
use claude_share.Domain.{Manifest, FileChange}
use claude_share.Fsutil.Diff.{diff}
use claude_share.Fsutil.Hash.{hash_content, encode_to_string}
use claude_share.Fsutil.Path.{clean, join, abs, names, show, render, walk, split_path, is_abs}
use claude_share.Fsutil.SafeJoin.{safe_join, is_unsafe, escapes, has_prefix}
use claude_share.Fsutil.Walk.{
  Node, regular, dir, end, entry, walk_manifest, walk_entries, skips_dir, exceeds, default_ignored,
  add_file,
}
use claude_share.Fsstore.Workspace.{snapshot, read_workspace_file}
use claude_share.Session.{Deps, Service, finish_turn}
use claude_share.Session.Turn.{Pushes, with_content, finish_turn_pushes}
use claude_share.Localfs.{read_project_file}
use claude_share.Localfs.Open.{Project}
use claude_share.Ws.Client.{upload_blob}
use claude_share.Ws.Notifier.{send_data}
use claude_share.Ws.Conn.{SecureChannel, Socket, new_stream_id, send_envelope, send_content}
use claude_share.ClientApp.{Ports, upload_loop}
use claude_share.ClientApp.Upload.{Uploads, upload_loop_sends, content_at}
use claude_share.Programs.Server.{Flags}
use claude_share.Programs.Server.Wiring.{Others, deps}
use claude_share.Programs.Server.Wiring.Pushing
use claude_share.Programs.Server.Wiring.Pushing.{deps-Pushes}
use claude_share.Programs.Client.Wiring.{Desk, Environment, ports}
use claude_share.Programs.Client.Wiring.Uploading
use claude_share.Programs.Client.Wiring.Uploading.{ports-Uploads}
use claude_share.Examples.Toy.{json}

abbrev pub root : Bytes
root = codes "/p"

abbrev pub nowhere : Result Bytes
nowhere = err (foreign [])

abbrev pub calm : World
calm = record { faults = λ t. none; written = λ t. 0; random = λ t. codes "0123456789" }

abbrev pub with_hash : Bytes → Manifest
with_hash h = record { entries = record { path = codes "a"; hash = h; size = 3; mode = 420 } ∷ [] }

abbrev pub before : Manifest
before = with_hash (codes "h")

abbrev pub after : Manifest
after = with_hash []

abbrev flags : Flags
flags = record {
  addr = codes "127.0.0.1:8443";
  data_dir = codes "/d";
  allow_public = false;
  claude_bin = codes "claude";
  permission_mode = codes "acceptEdits";
  max_sessions = 8;
}

-- The walk finds the one file of the disk.
abbrev tree_of : Disk → Node
tree_of d = dir none (
    entry (codes "a")
      (regular (ok (record { size = 3; perm = 420 }))
        (ok (Reads.content_at d.files (ok (codes "/p/a")))))
      end)

-- An agent that does nothing, and a notifier that drops all.
abbrev others : Others
others = record {
  State = Bytes;
  Agent = Bytes;
  new_id = λ o. (codes "i", o);
  remove_all = λ dir d. (ok tt, d);
  make_all = λ dir d. (ok tt, d);
  tree_at = λ dir d. ok (tree_of d);
  start = λ id dir s. (ok id, s);
  send = λ a text s. (ok tt, s);
  interrupt = λ a s. (ok tt, s);
  close_agent = λ a s. (ok tt, s);
  stream_event = λ ev o. (ok tt, o);
  file_change = λ c content o. (ok tt, o);
  turn_done = λ r o. (ok tt, o);
}

-- A hash function that gives nothing.
abbrev sum : Bytes → Bytes
sum b = []

-- The service that main makes.
abbrev pub server : Deps
server = deps sum calm calm nowhere flags (Pushing.with_log others)

abbrev new_files : Dict Bytes Bytes
new_files = (codes "/p/a", codes "new") ∷ []

abbrev pub new_text : Bytes → Bytes
new_text path = Pushing.text_of nowhere root new_files path

abbrev pub pushes : Pushes server root new_text
pushes = deps-Pushes sum calm calm nowhere flags others root new_files

abbrev pub session : Service server
session = record {
  session_id = codes "i";
  manifest = before;
  ws = some root;
  agent = some (codes "i");
  pre_turn = before;
  signal = none;
  pumping = true;
  outside = record {
    store = record { files = []; time = 0 };
    work = record { files = new_files; time = 0 };
    rest = ([], []);
  };
}

pub session-Same : pushes.Same session.outside
session-Same = refl

pub taken : (server.snapshot root session.outside).0 ≡ ok after
unfolding snapshot walk_manifest walk_entries skips_dir exceeds default_ignored add_file bytes_eq
    bytes_lt sort insert hash_content encode_to_string Dict.get
taken = refl

pub finished : (finish_turn server root none session).0 ≡ ok tt
unfolding finish_turn diff snapshot walk_manifest walk_entries skips_dir exceeds default_ignored
    add_file bytes_eq bytes_lt sort insert hash_content encode_to_string Dict.get Dict.put
    read_workspace_file safe_join is_unsafe escapes has_prefix clean join abs names show render walk
    split_path is_abs
finished = refl

finish_turn_pushes_example :
    let r = (finish_turn server root none session).0 in
    let s' = (finish_turn server root none session).1 in
    ((e : Error) × ((server.snapshot root session.outside).0 ≡ err e)
      × (r ≡ err e)
      × (s'.pre_turn ≡ session.pre_turn)
      × (pushes.log s'.outside ≡ pushes.log session.outside))
    ⊎ ((m : Manifest) × (done left : List FileChange) × ((server.snapshot root session.outside).0
          ≡ ok m)
        × (diff session.pre_turn m ≡ done ++ left)
        × (pushes.log s'.outside ≡ pushes.log session.outside ++ map (with_content new_text) done)
        × (((left ≡ []) × (s'.pre_turn ≡ m) × (o : server.Outside) × (r ≡ ok tt))
            ⊎ ((left ≢ []) × (e : Error) × (r ≡ err e) × (s'.pre_turn ≡ session.pre_turn))))
finish_turn_pushes_example =
    finish_turn_pushes server root new_text pushes none session session-Same

-- A channel that does not encrypt, and a socket that drops what is written.
abbrev pub chan : SecureChannel
chan = record { State = Bytes; seal = λ b s. (ok b, s); unseal = λ b s. (ok b, s) }

abbrev pub sock : Socket
sock = record { State = Bytes; write = λ b s. (ok tt, s); read = λ s. (err (foreign []), s) }

abbrev pub env : Environment
env = record {
  getwd = nowhere;
  tree_at = λ d. err (foreign []);
  sum = λ b. b;
  text_of = λ e. [];
  trim_space = λ text. text;
  is_positive = λ n. false;
  four_places = λ n. [];
}

abbrev pub project : Project
project = record { root = root; ig = none; max_file_size = 0; max_total = 0 }

-- The application that main makes.
abbrev pub client : Ports
client = ports chan sock json calm env project

abbrev pub desk : Dict Bytes Bytes → Desk chan sock
desk files = record {
  conn = record { channel = []; socket = []; out_seq = 0; pending = [] };
  disk = record { files = files; time = 0 };
  screen = record { out = []; errors = [] };
}

abbrev old_files : Dict Bytes Bytes
old_files = (codes "/p/a", codes "old") ∷ []

abbrev index : Dict Bytes Bytes
index = (codes "h1", codes "a") ∷ []

abbrev old_text : Bytes → Bytes
old_text path = Uploading.text_of nowhere root old_files path

-- The application that main makes, with a record of its uploads.
abbrev uploading : Ports
uploading = Uploading.with_log client

abbrev uploads : Uploads uploading old_text
uploads = ports-Uploads chan sock json calm env project old_files

upload_run : (upload_loop uploading index (codes "h1" ∷ []) (desk old_files, [])).0 ≡ ok tt
unfolding upload_loop Dict.get bytes_eq read_project_file is_unsafe clean abs escapes upload_blob
    new_stream_id send_data send_envelope send_content
upload_run = refl

upload_loop_sends_example :
    (upload_loop uploading index (codes "h1" ∷ []) (desk old_files, [])).1.1
    ≡ map (λ h. (h, content_at old_text (Dict.get h index))) (codes "h1" ∷ [])
upload_loop_sends_example =
    upload_loop_sends uploading old_text uploads index (codes "h1" ∷ []) (desk old_files, []) refl
      upload_run
