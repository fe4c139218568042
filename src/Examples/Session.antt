-- ===== src/Examples/Session.antt =====
-- A small service with a store of one blob and a workspace of one file.
use claude_share.Base.{
  Bool, true, false, ◌≡◌, refl, Bytes, bytes_eq, codes, none, some, List, [], ◌∷◌, ◌++◌, not, ◌&&◌,
  ok, err, nil_dereference,
}
use claude_share.Base.Dict
use claude_share.Base.Dict.{bytes_key}
use claude_share.Domain.{Manifest, FileEntry, AgentEvent, agent_result}
use claude_share.Session.{Deps, Service, Schedule, start_session, sync_done, close, pump_event}
use claude_share.Session.Missing.{is_among, has_hash, all_distinct, Answers, start_session-missing}
use claude_share.Session.Turn.{Log}
use claude_share.Session.Lifecycle.{pump_event-close, sync_done_starts, Started}
use claude_share.ClientApp.{to_dto}
use claude_share.ClientApp.Upload.{requests_known, path_of}
use claude_share.Ws.Server.{to_manifest}

abbrev hello : Bytes
hello = codes "hello"

abbrev pub entry : Bytes → Bytes → FileEntry
entry path hash = record { path = path; hash = hash; size = 5; mode = 420 }

abbrev project : Manifest
project = record {
  entries =
      entry (codes "a") (codes "h1")
      ∷ entry (codes "b") (codes "h2")
      ∷ entry (codes "c") (codes "h2")
      ∷ [];
}

abbrev pub after_turn : Manifest
after_turn = record { entries = entry (codes "a") (codes "h3") ∷ [] }

abbrev known : Bytes → Bool
known h = bytes_eq h (codes "h1")

abbrev pub deps : Deps
deps = record {
  Outside = Log;
  Workspace = Bytes;
  Agent = Bytes;
  has = λ h o. (ok (known h), o);
  put = λ h c o. (ok tt, o);
  new_id = λ o. (codes "id", o);
  new_workspace = λ id o. (ok id, o);
  dir = λ ws. ws;
  materialize = λ ws m o. (ok tt, o);
  snapshot = λ ws o. (ok after_turn, o);
  read_file = λ ws path o. (ok hello, o);
  remove = λ ws o. (ok tt, o);
  start = λ id dir o. (ok id, o);
  send = λ a text o. (ok tt, o);
  interrupt = λ a o. (ok tt, o);
  close_agent = λ a o. (ok tt, o);
  stream_event = λ ev o. (ok tt, o);
  file_change = λ c b o. (ok tt, o ++ (c, b) ∷ []);
  turn_done = λ r o. (ok tt, o);
}

abbrev fresh : Service deps
fresh = record {
  session_id = [];
  manifest = project;
  ws = none;
  agent = none;
  pre_turn = project;
  signal = none;
  pumping = false;
  outside = [];
}

abbrev started : Service deps
started = record fresh {
  session_id = codes "id";
  ws = some (codes "id");
  agent = some (codes "id");
  pumping = true;
}

abbrev done : AgentEvent
done = record { kind = agent_result; text = []; raw = []; result = none }

-- The store answers for every hash and does not change.
abbrev answers : Answers deps known (λ h. Unit)
answers = record { Same = λ o. Unit; found = λ h o valid same. refl; kept = λ h o same. tt }

start_session-missing_example :
    (hs : List Bytes) × (o : Log) × (start_session deps (codes "p") project fresh
      ≡ (ok hs, record fresh { manifest = project; outside = o }))
    × answers.Same o
    × (all_distinct hs ≡ true)
    × ((h : Bytes) → is_among h hs ≡ (has_hash h project.entries && not (known h)))
start_session-missing_example =
    start_session-missing deps known (λ h. Unit) answers (codes "p") project fresh
      (tt, (tt, (tt, tt))) tt

abbrev quiet : Schedule
quiet = record { before_drain = []; before_send = []; before_wait = done ∷ [] }

pump_event-close_example : (pump_event deps done (close deps started).1).0 ≡ err nil_dereference
unfolding bytes_eq
pump_event-close_example = pump_event-close deps started done refl refl

sync_done_starts_example : Started deps fresh (sync_done deps fresh).0 (sync_done deps fresh).1
sync_done_starts_example = sync_done_starts deps fresh refl

requests_known_example :
    (hs : List Bytes) × ((start_session deps (codes "p") (to_manifest (to_dto project).0) fresh).0
      ≡ ok hs)
    × ((h : Bytes)
        → is_among h hs ≡ true
        → (path : Bytes) × (Dict.get h (to_dto project).1 ≡ some path)
          × (path_of h project.entries ≡ some path)
          × (known h ≡ false))
requests_known_example =
    requests_known deps known (λ h. Unit) answers (codes "p") project fresh (tt, (tt, (tt, tt))) tt
