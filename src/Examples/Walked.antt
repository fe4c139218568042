-- ===== src/Examples/Walked.antt =====
-- The walk of a small tree, and a message from the server.
use claude_share.Base.{
  ◌≡◌, refl, Bool, true, false, Bytes, bytes_eq, bytes_lt, codes, none, some, [], ◌∷◌, Result, ok,
}
use claude_share.Base.Sort.{sort, insert}
use claude_share.Domain.{FileEntry, Manifest}
use claude_share.Protocol.MessageType
use claude_share.Fsutil.Hash.{hash_content, encode_to_string}
use claude_share.Fsutil.Walk.{
  Node, regular, dir, Entries, end, entry, WalkOptions, walk_manifest, walk_entries, skips_dir,
  exceeds, default_ignored, add_file,
}
use claude_share.Fsutil.Walk.Listed.{listed, walk_manifest_lists}
use claude_share.Fsutil.Walk.Readable.{AreReadable, walk_manifest-AreReadable}
use claude_share.Ws.Conn.{Framed}
use claude_share.ClientApp.{ServerMessage, App, handle_message}
use claude_share.ClientApp.Inbound.{read_server_message, is_complete, inbound_handled}
use claude_share.Examples.Toy.{json}
use claude_share.Programs.Client.Wiring.{ports-Shows}
use claude_share.Examples.Wired.{chan, sock, calm, env, project, client, desk}

abbrev sum : Bytes → Bytes
sum b = b

abbrev opts : WalkOptions
opts = record { ignore = none; max_file_size = 0; max_total_size = 0 }

abbrev file : Bytes → Node
file b = regular (ok (record { size = 2; perm = 420 })) (ok b)

abbrev inside : Entries
inside = entry (codes ".git") (dir none (entry (codes "HEAD") (file (codes "x")) end)) (
    entry (codes "b") (dir none (entry (codes "c") (file (codes "h")) end))
      (entry (codes "b.txt") (file (codes "i")) end))

abbrev tree : Result Node
tree = ok (dir none inside)

abbrev walked : Manifest
walked = record {
  entries =
      record { path = codes "b.txt"; hash = codes "69"; size = 2; mode = 420 }
      ∷ record { path = codes "b/c"; hash = codes "68"; size = 2; mode = 420 }
      ∷ [];
}

walk_run : walk_manifest sum opts tree ≡ ok walked
unfolding walk_manifest walk_entries skips_dir exceeds default_ignored add_file bytes_eq bytes_lt
    sort insert hash_content encode_to_string
walk_run = refl

walk_manifest_lists_example :
    walked ≡ record { entries = sort (λ (e : FileEntry). e.path) (listed sum opts tree) }
walk_manifest_lists_example = walk_manifest_lists sum opts tree walked walk_run

inside-AreReadable : AreReadable inside
unfolding AreReadable
inside-AreReadable = (
  (refl, (((record { size = 2; perm = 420 }, refl), (codes "x", refl)), tt)),
  (
    (refl, (((record { size = 2; perm = 420 }, refl), (codes "h", refl)), tt)),
    (((record { size = 2; perm = 420 }, refl), (codes "i", refl)), tt),
  ),
)

walk_manifest-AreReadable_example :
    walk_manifest sum opts tree
    ≡ ok (record { entries = sort (λ (e : FileEntry). e.path) (listed sum opts tree) })
walk_manifest-AreReadable_example =
    walk_manifest-AreReadable sum opts refl refl inside inside-AreReadable

abbrev change_frame : Framed
change_frame = record {
  env = record {
    typ = MessageType.file_change;
    id = [];
    payload = 1 ∷ 2 ∷ 420 ∷ 6 ∷ codes "create";
  };
  content = codes "hi";
  has_content = true;
}

abbrev change_message : ServerMessage
change_message = record {
  typ = MessageType.file_change;
  session_ready = none;
  sync_request = none;
  stream_event = none;
  file_change =
      some
        (record { op = codes "create"; path = []; mode = 420; hash = []; stream_id = 1; size = 2 });
  content = codes "hi";
  turn_done = none;
  error = none;
}

decoded : read_server_message json (ok change_frame) ≡ ok change_message
unfolding read_server_message bytes_eq
decoded = refl

abbrev app : App client
app = record {
  sync_req = none;
  ready = none;
  turn_done = false;
  read_err = none;
  reading = true;
  outside = desk [];
}

inbound_handled_example :
    (is_complete change_message ≡ true)
    × (b : Bool) × ((handle_message client change_message app).0 ≡ ok b)
inbound_handled_example =
    inbound_handled client (ports-Shows chan sock json calm env project) json change_frame
      change_message app decoded
