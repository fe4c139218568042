-- ===== src/Ws/Server/Slots.antt =====
-- The limit on sessions of internal/adapters/transport/ws/server.go: connections that come and go
-- in any order.
use claude_share.Base.{ℕ, ◌+◌, ◌≤◌, ◌<◌, ◌≡◌, none, some, ok, arith}
use claude_share.Ws.Server.{Net, ServerConfig, Server, new_server, take_slot, release_slot}

-- The server and the number of its running sessions.
pub record Load : Type 0 where
  pub server : Server
  pub running : ℕ

pub data Step : Load → Load → Type 0 where
  accepted :
      {s s' : Server} {n : ℕ}
      → take_slot s ≡ some s'
      → Step (record { server = s; running = n }) (record { server = s'; running = n + 1 })
  rejected :
      {s : Server} {n : ℕ}
      → take_slot s ≡ none
      → Step (record { server = s; running = n }) (record { server = s; running = n })
  ended :
      {s : Server} {n : ℕ}
      → Step
          (record { server = s; running = n + 1 })
          (record { server = release_slot s; running = n })

pub data Steps : Load → Load → Type 0 where
  done : {l : Load} → Steps l l
  next : {l m n : Load} → Steps l m → Step m n → Steps l n

IsCounted : ℕ → Load → Type 0
IsCounted capacity l =
    (l.server.slots ≡ some capacity) × (l.server.used ≡ l.running) × (l.running ≤ capacity)

take_slot_counts :
    (capacity n : ℕ) (s s' : Server)
    → IsCounted capacity (record { server = s; running = n })
    → take_slot s ≡ some s'
    → IsCounted capacity (record { server = s'; running = n + 1 })
unfolding IsCounted take_slot
take_slot_counts capacity n s s' (a, b, c) h = ground (arith, a, b, c, h)

Step-IsCounted :
    (capacity : ℕ) {l m : Load} → Step l m → IsCounted capacity l → IsCounted capacity m
unfolding IsCounted release_slot
Step-IsCounted capacity (accepted {s} {s'} {n} h) i = take_slot_counts capacity n s s' i h
Step-IsCounted capacity (rejected h) i = i
Step-IsCounted capacity (ended {s} {n}) (a, b, c) = ground (arith, a, b, c)

Steps-IsCounted :
    (capacity : ℕ) {l m : Load} → Steps l m → IsCounted capacity l → IsCounted capacity m
Steps-IsCounted capacity done i = i
Steps-IsCounted capacity (next steps step) i =
    Step-IsCounted capacity step (Steps-IsCounted capacity steps i)

-- Of a server with a limit never more sessions run than the limit, in whatever order connections
-- come and sessions end, and its counter is the number of those that run.
pub Steps-within_limit :
    (net : Net) (cfg : ServerConfig) (server : Server) (l : Load)
    → new_server net cfg ≡ ok server
    → 0 < cfg.max_sessions
    → Steps (record { server = server; running = 0 }) l
    → (l.running ≤ cfg.max_sessions) × (l.server.used ≡ l.running)
unfolding IsCounted new_server
Steps-within_limit net cfg server l h limited steps =
    let start : IsCounted cfg.max_sessions (record { server = server; running = 0 }) =
      ground (arith, h, limited) in
    let (a, b, c) = Steps-IsCounted cfg.max_sessions steps start in (c, b)
