-- ===== src/Secrets/Noise.antt =====
-- internal/adapters/crypto/noise/noise.go. HKDF and the Noise library are parameters: a handshake
-- state writes and reads messages, and yields two cipher states with the last of them.
pub mod Frames
use claude_share.Base.{
  ℕ, ◌≡◌, refl, Bool, true, false, not, Bytes, codes, Option, none, some, [], ◌==◌, if◌then◌else◌,
  length, bytes_eq, Result, ok, err, bad_psk, empty_token, no_cipher_states,
}
use claude_share.Base.Exec.{Exec, fail, lift, ◌>>=◌, ◌>>◌}

abbrev pub psk_len : ℕ
psk_len = 32

abbrev pub hkdf_info : Bytes
hkdf_info = codes "claude-share/psk/v1"

-- `DerivePSK`; `hkdf` reads so many bytes of HKDF-BLAKE2s over the token and the info.
unfoldable pub derive_psk : (Bytes → Bytes → ℕ → Result Bytes) → Bytes → Result Bytes
derive_psk hkdf token = if bytes_eq token [] then err empty_token else hkdf token hkdf_info psk_len

pub record NoiseLib : Type 1 where
  pub State : Type 0
  pub Cipher : Type 0
  pub new_state : Bool → Bytes → Result State
  pub write_handshake : Exec State (Bytes × Option Cipher × Option Cipher)
  pub read_handshake : Bytes → Exec State (Option Cipher × Option Cipher)
  pub encrypt : Bytes → Exec Cipher Bytes
  pub decrypt : Bytes → Exec Cipher Bytes

pub record Channel (lib : NoiseLib) : Type 0 where
  pub send : lib.Cipher
  pub recv : lib.Cipher

pub record Config : Type 0 where
  pub psk : Bytes
  pub initiator : Bool

module _ (lib : NoiseLib) where
  -- The test for nil at the end of `Handshake`.
  unfoldable pub channel_of : Option lib.Cipher → Option lib.Cipher → Result (Channel lib)
  channel_of (some enc) (some dec) = ok (record { send = enc; recv = dec })
  channel_of (some enc) none = err no_cipher_states
  channel_of none dec = err no_cipher_states

  module _ {Wire : Type 0} (send : Bytes → Exec Wire Unit) (recv : Exec Wire Bytes) where
    -- The handshake state is a variable of the function; only the wire outlives it.
    initiate : lib.State → Exec Wire (Channel lib)
    initiate hs = do
      (msg, _, _) ← lift (lib.write_handshake hs).0
      send msg
      reply ← recv
      (cs0, cs1) ← lift (lib.read_handshake reply (lib.write_handshake hs).1).0
      lift (channel_of cs0 cs1)

    respond : lib.State → Exec Wire (Channel lib)
    respond hs = do
      first ← recv
      _ ← lift (lib.read_handshake first hs).0
      (msg, cs0, cs1) ← lift (lib.write_handshake (lib.read_handshake first hs).1).0
      send msg
      lift (channel_of cs1 cs0)

    unfoldable pub handshake : Config → Exec Wire (Channel lib)
    unfolding initiate respond channel_of
    handshake cfg = if not (length cfg.psk == psk_len) then fail bad_psk else do
      hs ← lift (lib.new_state cfg.initiator cfg.psk)
      if cfg.initiator then initiate hs else respond hs

  unfoldable pub seal : Bytes → Exec (Channel lib) Bytes
  seal plain c = let (r, s) = lib.encrypt plain c.send in (r, record c { send = s })

  -- `Open`
  unfoldable pub unseal : Bytes → Exec (Channel lib) Bytes
  unseal sealed c = let (r, s) = lib.decrypt sealed c.recv in (r, record c { recv = s })

-- Two ends of one handshake: what each receives is what the other wrote, and the library gives
-- both ends of a direction linked cipher states, first the initiator's direction, then the
-- responder's.
module _ (lib : NoiseLib) (Linked : lib.Cipher → lib.Cipher → Type 0) {Wire Wire' : Type 0}
    (send : Bytes → Exec Wire Unit) (recv : Exec Wire Bytes) (send' : Bytes → Exec Wire' Unit)
    (recv' : Exec Wire' Bytes) where
  pub record Exchange (psk : Bytes) (w w₁ w₂ : Wire) (v v₁ v₂ : Wire') : Type 0 where
    pub hs : lib.State
    pub rs : lib.State
    pub msg : Bytes
    pub reply : Bytes
    pub own0 : Option lib.Cipher
    pub own1 : Option lib.Cipher
    pub got : Option lib.Cipher × Option lib.Cipher
    pub d0 : lib.Cipher
    pub d1 : lib.Cipher
    pub c0 : lib.Cipher
    pub c1 : lib.Cipher
    pub initial : lib.new_state true psk ≡ ok hs
    pub initial' : lib.new_state false psk ≡ ok rs
    pub written : (lib.write_handshake hs).0 ≡ ok (msg, own0, own1)
    pub sent : send msg w ≡ (ok tt, w₁)
    pub came' : recv' v ≡ (ok msg, v₁)
    pub read' : (lib.read_handshake msg rs).0 ≡ ok got
    pub written' :
        (lib.write_handshake (lib.read_handshake msg rs).1).0 ≡ ok (reply, some c0, some c1)
    pub sent' : send' reply v₁ ≡ (ok tt, v₂)
    pub came : recv w₁ ≡ (ok reply, w₂)
    pub read : (lib.read_handshake reply (lib.write_handshake hs).1).0 ≡ ok (some d0, some d1)
    pub linked0 : Linked d0 c0
    pub linked1 : Linked d1 c1

  -- Both ends get a channel, and what either sends on is linked to what the other receives on.
  pub handshake_pairs :
      (psk : Bytes) (w w₁ w₂ : Wire) (v v₁ v₂ : Wire')
      → length psk ≡ 32
      → Exchange psk w w₁ w₂ v v₁ v₂
      → (ci cr : Channel lib) × (handshake lib send recv (record { psk = psk; initiator = true }) w
          ≡ (ok ci, w₂))
        × (handshake lib send' recv' (record { psk = psk; initiator = false }) v ≡ (ok cr, v₂))
        × Linked ci.send cr.recv
        × Linked ci.recv cr.send
  unfolding handshake
  handshake_pairs psk w w₁ w₂ v v₁ v₂ h x = (
    record { send = x.d0; recv = x.d1 },
    record { send = x.c1; recv = x.c0 },
    rw (h, x.initial, x.written, x.sent, x.came, x.read) refl,
    rw (h, x.initial', x.came', x.read', x.written', x.sent') refl,
    x.linked0,
    x.linked1,
  )
