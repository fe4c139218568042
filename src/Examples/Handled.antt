-- ===== src/Examples/Handled.antt =====
-- One connection that is served, and the life of a session.
use claude_share.Base.{
  ◌+◌, ◌-◌, ◌≤◌, ◌≡◌, ◌≢◌, refl, true, false, Bytes, bytes_eq, codes, none, some, [], ◌∷◌,
  replicate, ok, foreign,
}
use claude_share.Domain.{AgentEvent, agent_result, agent_message}
use claude_share.Protocol.MessageType
use claude_share.Ws.Conn.{Framed}
use claude_share.Ws.Server.{ServerConfig, Driven, take_slot}
use claude_share.Ws.Server.Keeps.{Keeps}
use claude_share.Ws.Server.Handle.{Http, Hub, ErrorTests, handle}
use claude_share.Ws.Server.Handle.Balanced.{View, Opens, handle_balanced}
use claude_share.Session.{
  Service, Schedule, new_service, sync_done, pump, finish_turn, handle_prompt,
}
use claude_share.Session.Reachable.{no_calls, then_call, ends_sync, Calls-pump_ok, held}
use claude_share.Session.Answered.{IsTurn, handle_prompt_answered}
use claude_share.Examples.Toy.{json}
use claude_share.Examples.Others.{lib}
use claude_share.Examples.Session.{deps, after_turn}

-- A service of which only the number counts.
abbrev counted : Driven
counted = record {
  State = View;
  start_session = λ name m s. (ok [], s);
  put_blob = λ h c s. (ok tt, s);
  sync_done = λ s. (ok [], s);
  interrupt = λ s. (ok tt, s);
  spawn_prompt = λ text s. s;
  sync_request = λ hs s. (ok tt, s);
  session_ready = λ id s. (ok tt, s);
  error = λ text s. (ok tt, s);
}

keeps : Keeps counted (λ v. v)
keeps = record {
  start_session = λ n m. record { same = λ s. refl };
  put_blob = λ h c. record { same = λ s. refl };
  sync_done = record { same = λ s. refl };
  interrupt = record { same = λ s. refl };
  spawn_prompt = λ t. record { same = λ s. refl };
  sync_request = λ hs. record { same = λ s. refl };
  session_ready = λ id. record { same = λ s. refl };
  error = λ t. record { same = λ s. refl };
}

abbrev http : Http View lib
http = record {
  accept = λ v. (ok tt, record v { is_open = true });
  write = λ b v. (ok tt, v);
  read = λ v. (ok [], v);
  close_socket = λ n v. record v { is_open = false };
  open_service = λ ch v. record v { running = v.running + 1; made = v.made + 1 };
  close_service = λ v. record v { running = v.running - 1 };
  log_rejected = λ v. v;
  log_error = λ e v. v;
}

opens : Opens counted lib http (λ v. v)
opens = record {
  accepted = λ s h. refl;
  not_accepted = λ s e h. cc h;
  write = λ b. record { same = λ s. refl };
  read = record { same = λ s. refl };
  close_socket = λ n s. refl;
  open_service = λ ch s. refl;
  close_service = λ s. refl;
  log_rejected = λ s. refl;
  log_error = λ e s. refl;
}

abbrev config : ServerConfig
config = record { addr = codes "7:80"; psk = replicate 32 1; allow_public = true; max_sessions = 2 }

abbrev hub : Hub View
hub = record {
  server = record { cfg = config; slots = some 2; used = 1 };
  state = record { running = 1; made = 5; is_open = false };
}

abbrev tests : ErrorTests
tests = record {
  is_cancelled = λ e. false;
  is_net_closed = λ e. false;
  close_status = λ e. some 1000;
}

abbrev ping : Framed
ping = record {
  env = record { typ = MessageType.interrupt; id = []; payload = [] };
  content = [];
  has_content = false;
}

handle_balanced_example :
    let h' = handle counted lib http json (λ e. []) tests (ping ∷ []) (foreign []) hub in
    (h'.server ≡ hub.server)
    × (h'.state.running ≡ 1)
    × (h'.state.is_open ≡ false)
    × (5 ≤ h'.state.made)
    × (h'.state.made ≤ 5 + 1)
    × (take_slot hub.server ≡ none → h'.state.made ≡ 5)
handle_balanced_example =
    handle_balanced counted lib http json (λ e. []) tests (λ v. v) keeps opens (ping ∷ [])
      (foreign []) hub refl

abbrev started : Service deps
started = (sync_done deps (new_service deps [])).1

abbrev event : Bytes → AgentEvent
event kind = record { kind = kind; text = []; raw = []; result = none }

abbrev said : AgentEvent
said = event agent_message

abbrev done : AgentEvent
done = event agent_result

Calls-pump_ok_example :
    (started.agent ≢ none → started.ws ≢ none)
    × (started.pumping ≡ true → started.ws ≢ none)
    × ((pump deps (said ∷ done ∷ []) started).0 ≡ ok tt)
Calls-pump_ok_example =
    Calls-pump_ok deps [] started (said ∷ done ∷ []) (then_call no_calls ends_sync)

abbrev events : Schedule
events = record {
  before_drain = done ∷ [];
  before_send = said ∷ [];
  before_wait = said ∷ done ∷ [];
}

events-IsTurn : IsTurn events (said ∷ []) done
unfolding bytes_eq
events-IsTurn = record { idle = (refl, tt); works = (refl, tt); ends = refl; in_order = refl }

has_agent : started.agent ≡ some (codes "id")
unfolding sync_done new_service
has_agent = refl

has_ws : started.ws ≡ some (codes "id")
unfolding sync_done new_service
has_ws = refl

is_pumping : started.pumping ≡ true
unfolding sync_done new_service
is_pumping = refl

handle_prompt_answered_example :
    (t : Service deps) × (held deps t ≡ held deps started)
    × (t.signal ≡ none)
    × (handle_prompt deps (codes "hi") events true started ≡ (
      (finish_turn deps (codes "id") none t).0,
      record (finish_turn deps (codes "id") none t).1 { signal = none },
    ))
handle_prompt_answered_example =
    handle_prompt_answered deps (λ ev o. refl) (codes "hi") events (said ∷ []) done started
      (codes "id") (codes "id") after_turn events-IsTurn has_agent has_ws is_pumping refl
      (λ o. refl)
