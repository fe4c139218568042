-- ===== src/Ws/Server/Bind.antt =====
-- checkBind of internal/adapters/transport/ws/server.go.
use claude_share.Base.{
  inl, inr, ◌⊎◌, ◌≡◌, ◌≢◌, ◌↔◌, refl, Bool, true, false, Bytes, bytes_eq_iff, codes, some, [], ◌==◌,
  length, arith, Result-cases, ok, Bool-cases, Option-cases,
}
use claude_share.Ws.Server.{
  Net, ServerConfig, Server, check_bind, new_server, is_wildcard, is_outside,
}

-- What checkBind lets through without the flag: an address that SplitHostPort reads, whose host is
-- none of the empty text, `0.0.0.0` and `::` and, where it is the text of an IP address, a loopback
-- one.
pub IsInside : Net → Bytes → Type 0
IsInside net addr =
    (host port : Bytes) × (net.split_host_port addr ≡ ok (host, port))
    × ((host ≢ []) × (host ≢ codes "0.0.0.0") × (host ≢ codes "::"))
    × ((ip : net.Ip) → net.parse_ip host ≡ some ip → net.is_loopback ip ≡ true)

is_wildcard_iff :
    (host : Bytes)
    → (is_wildcard host ≡ false) ↔ ((host ≢ []) × (host ≢ codes "0.0.0.0") × (host ≢ codes "::"))
unfolding is_wildcard
is_wildcard_iff host = ground (
  arith,
  bytes_eq_iff host [],
  bytes_eq_iff host (codes "0.0.0.0"),
  bytes_eq_iff host (codes "::"),
)

check_bind_iff :
    (net : Net) (addr : Bytes) (allow_public : Bool)
    → (check_bind net addr allow_public ≡ ok tt) ↔ ((allow_public ≡ true) ⊎ IsInside net addr)
unfolding check_bind IsInside is_outside
check_bind_iff net addr true = ((λ _. inl refl), λ _. refl)
check_bind_iff net addr false = elim (Result-cases (net.split_host_port addr)) [
  | inl (e, h) ↦ rw h ((λ x. cc x), λ x. elim x [ inl x ↦ cc x | inr (a, b, x, _, _) ↦ cc x ])
  | inr ((host, port), h) ↦ rw h (elim (Bool-cases (is_wildcard host)) [
    | inl w ↦ rw w (
      (λ x. cc x),
      λ x. elim x [ inl x ↦ cc x | inr (a, b, x, n, _) ↦ cc (x, w, (is_wildcard_iff a).1 n) ],
    )
    | inr w ↦ rw w (elim (Option-cases (net.parse_ip host)) [
      | inl q ↦ (
        (λ _. inr (host, port, refl, (is_wildcard_iff host).0 w, λ ip t. cc (q, t))),
        λ _. rw q refl,
      )
      | inr (ip, q) ↦ elim (Bool-cases (net.is_loopback ip)) [
        | inl l ↦ (
          (λ _. inr (host, port, refl, (is_wildcard_iff host).0 w, λ ip' t. cc (q, t, l))),
          λ _. rw (q, l) refl,
        )
        | inr l ↦ (
          (λ x. cc (rw (q, l) at x)),
          λ x. elim x [
            | inl x ↦ cc x
            | inr (a, b, x, _, t) ↦ let e : a ≡ host = cc x in let m = t ip (rw e q) in cc (m, l)
          ],
        )
      ]
    ])
  ])
]

-- NewServer makes a server exactly if the key has 32 bytes and either public addresses are allowed
-- or the address is one that SplitHostPort reads, with a host that is none of the empty text,
-- `0.0.0.0` and `::`, and that is a loopback address where ParseIP reads it as an IP address.
pub new_server_iff :
    (net : Net) (cfg : ServerConfig)
    → ((s : Server) × (new_server net cfg ≡ ok s))
      ↔ ((length cfg.psk ≡ 32) × ((cfg.allow_public ≡ true) ⊎ IsInside net cfg.addr))
unfolding new_server
new_server_iff net cfg = elim (Bool-cases (length cfg.psk == 32)) [
  | inr short ↦ rw short ((λ (_, h). cc h), λ (h, _). absurd (ground arith))
  | inl whole ↦ rw whole (elim (Result-cases (check_bind net cfg.addr cfg.allow_public)) [
    | inl (e, h) ↦ rw h (
      (λ (_, x). cc x),
      λ (_, inside). cc ((check_bind_iff net cfg.addr cfg.allow_public).1 inside, h),
    )
    | inr (u, h) ↦
        rw h (
          (λ _. (ground arith, (check_bind_iff net cfg.addr cfg.allow_public).0 h)),
          λ _. (_, refl),
        )
  ])
]
