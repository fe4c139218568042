-- ===== src/Base/Errors.antt =====
-- Values of Go functions that also return an error. An error of the operating system, of the
-- standard library or of a library outside the repository is `foreign`, with its message.
use mathlib.Core.Path.{◌≡◌, refl}
use mathlib.Core.Logic.{◌⊎◌, inl, inr}
use mathlib.Core.Bool.{Bool, true, false}
use claude_share.Base.Texts.{Bytes}

pub data Error : Type 0 where
  foreign : Bytes → Error
  -- fsutil
  empty_path : Error
  unsafe_path escapes_root : Bytes → Error
  file_too_large : Bytes → Error
  project_too_large : Error
  -- blobstore
  invalid_hash : Bytes → Error
  hash_mismatch : Bytes → Bytes → Error
  -- protocol
  envelope_too_large empty_record short_chunk unknown_tag : Error
  -- transport
  decrypt : Error → Error
  unknown_stream : Error
  bad_psk wildcard_address not_loopback : Error
  invalid_addr : Error → Error
  -- application
  not_ready : Error
  unknown_hash : Bytes → Error
  remove_workspace : Error → Error
  -- errors.Join of one error, and of two
  joined_one : Error → Error
  joined_two : Error → Error → Error
  interrupt_unsupported : Error
  -- secrets
  empty_token no_cipher_states word_count empty_wordlist : Error
  -- a cancelled context
  cancelled : Error
  -- a method call on a nil interface, which ends the program
  nil_dereference : Error
  -- an index out of range, which does so too
  out_of_range : Error

pub data Result {ℓ} (A : Type ℓ) : Type ℓ where
  ok : A → Result A
  err : Error → Result A

-- `if !test { return e }`
abbrev pub guard : Bool → Error → Result (Unit {0})
guard test e = elim test [ true ↦ ok tt | false ↦ err e ]

module _ {ℓ κ} {A : Type ℓ} {B : Type κ} where
  infixl 5 ◌>>=◌
  -- `a, err := m; if err != nil { return err }; …`
  abbrev pub ◌>>=◌ : Result A → (A → Result B) → Result B
  m >>= next = elim m [ ok a ↦ next a | err e ↦ err e ]

module _ {ℓ} {B : Type ℓ} where
  infixl 5 ◌>>◌
  abbrev pub ◌>>◌ : Result (Unit {0}) → Result B → Result B
  check >> next = check >>= λ done. next

pub Result-cases {ℓ} :
    {A : Type ℓ} (r : Result A) → ((e : Error) × (r ≡ err e)) ⊎ ((a : A) × (r ≡ ok a))
Result-cases (ok a) = inr (a, refl)
Result-cases (err e) = inl (e, refl)
