-- ===== src/Secrets.antt =====
-- internal/adapters/crypto: the passphrase generator, and the handshake that makes a secure
-- channel. HKDF and the Noise library are parameters.
pub mod Passphrase
pub mod Noise
