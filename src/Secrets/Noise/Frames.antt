-- ===== src/Secrets/Noise/Frames.antt =====
-- `Handshake` of internal/adapters/crypto/noise/noise.go reaches the wire only through its two
-- functions.
use claude_share.Base.{refl, not, Bytes, length, ◌==◌, if◌then◌else◌, Result, bad_psk}
use claude_share.Base.Exec.{
  Exec, lift, fail, LeavesAlone, lift-LeavesAlone, bind-LeavesAlone, if-LeavesAlone, ◌>>=◌, ◌>>◌,
}
use claude_share.Secrets.Noise.{
  NoiseLib, Channel, Config, psk_len, handshake, initiate, respond, channel_of,
}

module _ (lib : NoiseLib) {Wire V : Type 0} (view : Wire → V) {send : Bytes → Exec Wire Unit}
    {recv : Exec Wire Bytes} (sends : (b : Bytes) → LeavesAlone view (send b))
    (receives : LeavesAlone view recv) where
  lift_then :
      {A B : Type 0} (r : Result A) (f : A → Exec Wire B)
      → ((a : A) → LeavesAlone view (f a))
      → LeavesAlone view (lift r >>= f)
  lift_then r f h = bind-LeavesAlone view {m = lift r} {f = f} (lift-LeavesAlone view r) h

  initiate-LeavesAlone : (hs : lib.State) → LeavesAlone view (initiate lib send recv hs)
  unfolding initiate
  initiate-LeavesAlone hs = lift_then (lib.write_handshake hs).0 _ (λ x.
      bind-LeavesAlone view {m = send x.0} (sends x.0) (λ _.
        bind-LeavesAlone view {m = recv} receives (λ reply.
          lift_then (lib.read_handshake reply (lib.write_handshake hs).1).0
            (λ y. lift (channel_of lib y.0 y.1)) (λ y. lift-LeavesAlone view _))))

  respond-LeavesAlone : (hs : lib.State) → LeavesAlone view (respond lib send recv hs)
  unfolding respond
  respond-LeavesAlone hs = bind-LeavesAlone view {m = recv} receives (λ first.
      lift_then (lib.read_handshake first hs).0 _ (λ _.
        lift_then (lib.write_handshake (lib.read_handshake first hs).1).0
          (λ x. do send x.0; lift (channel_of lib x.2 x.1))
          (λ x.
            bind-LeavesAlone view {m = send x.0} {f = λ _. lift (channel_of lib x.2 x.1)}
              (sends x.0) (λ _. lift-LeavesAlone view _))))

  pub handshake-LeavesAlone : (cfg : Config) → LeavesAlone view (handshake lib send recv cfg)
  unfolding handshake
  handshake-LeavesAlone cfg =
      if-LeavesAlone view (not (length cfg.psk == psk_len)) {m = fail {A = Channel lib} bad_psk}
        (record { same = λ s. refl })
        (lift_then (lib.new_state cfg.initiator cfg.psk)
          (λ hs. if cfg.initiator then initiate lib send recv hs else respond lib send recv hs)
          (λ hs.
            if-LeavesAlone view cfg.initiator (initiate-LeavesAlone hs) (respond-LeavesAlone hs)))
