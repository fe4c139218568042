-- ===== src/Ws/Dial.antt =====
-- How the client of internal/adapters/transport/ws/client.go connects and closes.
use claude_share.Base.{ℕ, Bytes, true, Result, ok, err}
use claude_share.Base.Exec.{Exec}
use claude_share.Secrets.Noise.{NoiseLib, derive_psk, handshake}
use claude_share.Ws.Conn.{Socket, Conn, new_conn}
use claude_share.Ws.Conn.Linked.{noise_channel}
use claude_share.Ws.Server.Handle.{status_normal_closure, status_policy_violation}

-- `PSKFromToken`
unfoldable pub psk_from_token : (Bytes → Bytes → ℕ → Result Bytes) → Bytes → Result Bytes
unfolding derive_psk
psk_from_token hkdf token = derive_psk hkdf token

-- websocket.Dial and the connection's Close are parameters.
module _ (lib : NoiseLib) (sock : Socket) (open_socket : Bytes → Exec sock.State Unit)
    (close_socket : ℕ → Exec sock.State Unit) where
  unfoldable pub dial : Bytes → Bytes → Exec sock.State (Conn (noise_channel lib) sock)
  unfolding handshake new_conn
  dial url psk s =
      let (r, s₁) = open_socket url s in
      elim r [
        | err e ↦ (err e, s₁)
        | ok _ ↦
            let (h, s₂) =
              handshake lib sock.write sock.read (record { psk = psk; initiator = true }) s₁ in
            elim h [
              | err e ↦ (err e, (close_socket status_policy_violation s₂).1)
              | ok ch ↦ (ok (new_conn ch s₂), s₂)
            ]
      ]

  unfoldable pub close : Exec (Conn (noise_channel lib) sock) Unit
  close c = let (r, s) = close_socket status_normal_closure c.socket in (r, record c { socket = s })
