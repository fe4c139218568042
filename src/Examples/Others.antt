-- ===== src/Examples/Others.antt =====
-- The upload loop, the agent's output, the passphrase and the handshake at concrete values.
use claude_share.Base.{
  ℕ, ◌<◌, ◌≡◌, ◌⊎◌, refl, true, false, Bool, Bytes, codes, none, some, List, [], ◌∷◌, ◌++◌,
  replicate, length, Error, ok, err, foreign, arith, if◌then◌else◌, All,
}
use claude_share.Base.Dict.{bytes_key}
use claude_share.Base.Exec.{Exec}
use claude_share.Domain.{Manifest}
use claude_share.ClientApp.{Ports}
use claude_share.Agent.Tail.{write_all, write_all_keeps_tail, tail_of}
use claude_share.Agent.Tail
use claude_share.Secrets.Passphrase.{generate, join, IsWord, Failed, generate_joins}
use claude_share.Secrets.Noise.{NoiseLib, Channel, handshake, Exchange, handshake_pairs}

abbrev pub hello : Bytes
hello = codes "hello"

-- A client whose uploads are logged.
abbrev pub ports : Ports
ports = record {
  Outside = List (Bytes × Bytes);
  session_start = λ name dto o. (ok tt, o);
  upload_blob = λ h c o. (ok tt, o ++ (h, c) ∷ []);
  sync_done = λ o. (ok tt, o);
  prompt = λ text o. (ok tt, o);
  session_end = λ o. (ok tt, o);
  manifest = λ o. (ok (record { entries = [] }), o);
  read_file = λ path o. (ok hello, o);
  apply = λ ch c o. (ok tt, o);
  show_event = λ ev o. (ok tt, o);
  show_change = λ op path o. o;
  show_turn = λ r o. (ok tt, o);
  show_failure = λ path e o. o;
  show_error = λ text o. o;
  trim_space = λ text. text;
}

abbrev project : Manifest
project = record {
  entries = record { path = codes "a"; hash = codes "h1"; size = 5; mode = 420 } ∷ [];
}

write_all_keeps_tail_example :
    (write_all (codes "abc" ∷ codes "de" ∷ []) (record { buf = []; max = 4 })).buf
    ≡ tail_of 4 (Tail.concat (codes "abc" ∷ codes "de" ∷ []))
write_all_keeps_tail_example = write_all_keeps_tail (codes "abc" ∷ codes "de" ∷ []) 4

-- A random source that always draws the first word.
first : ℕ → Exec ℕ ℕ
first max s = elim max [ ℕ.zero ↦ (err (foreign []), s) | ℕ.suc n ↦ (ok 0, s) ]

first_in_range : (max i : ℕ) (s : ℕ) → (first max s).0 ≡ ok i → i < max
unfolding first
first_in_range ℕ.zero i s h = cc h
first_in_range (ℕ.suc n) i s h = let e : 0 ≡ i = cc h in omega (arith, e)

abbrev words : List Bytes
words = codes "yo" ∷ codes "ho" ∷ []

generate_joins_example :
    ((ws : List Bytes) × ((generate first words 2 0).0 ≡ ok (join (codes "-") ws))
      × (length ws ≡ 2)
      × All (IsWord words) ws)
    ⊎ ((e : Error) × ((generate first words 2 0).0 ≡ err e) × Failed first words first_in_range e)
generate_joins_example = generate_joins first words first_in_range 2 0 (omega arith) (omega arith)

-- A library whose cipher states are numbers; the first direction has 1, the second 2.
abbrev pub lib : NoiseLib
lib = record {
  State = Bool;
  Cipher = ℕ;
  new_state = λ initiator psk. ok initiator;
  write_handshake =
      λ s. (ok (if s then (codes "e", none, none) else (codes "e, ee", some 1, some 2)), s);
  read_handshake = λ m s. (ok (if s then (some 1, some 2) else (none, none)), s);
  encrypt = λ b c. (ok b, c);
  decrypt = λ b c. (ok b, c);
}

abbrev send : Bytes → Exec Bytes Unit
send b s = (ok tt, s)

abbrev incoming : Exec Bytes Bytes
incoming s = (ok s, s)

abbrev psk : Bytes
psk = replicate 32 1

abbrev exchange :
    Exchange lib
      (λ a b. a ≡ b)
      send
      incoming
      send
      incoming
      psk
      (codes "e, ee")
      (codes "e, ee")
      (codes "e, ee")
      (codes "e")
      (codes "e")
      (codes "e")
exchange = record {
  hs = true;
  rs = false;
  msg = codes "e";
  reply = codes "e, ee";
  own0 = none;
  own1 = none;
  got = (none, none);
  d0 = 1;
  d1 = 2;
  c0 = 1;
  c1 = 2;
  initial = refl;
  initial' = refl;
  written = refl;
  sent = refl;
  came' = refl;
  read' = refl;
  written' = refl;
  sent' = refl;
  came = refl;
  read = refl;
  linked0 = refl;
  linked1 = refl;
}

handshake_pairs_example :
    (ci cr : Channel lib) × (handshake lib send incoming
        (record { psk = psk; initiator = true })
        (codes "e, ee")
      ≡ (ok ci, codes "e, ee"))
    × (handshake lib send incoming (record { psk = psk; initiator = false }) (codes "e")
        ≡ (ok cr, codes "e"))
    × (ci.send ≡ cr.recv)
    × (ci.recv ≡ cr.send)
handshake_pairs_example =
    handshake_pairs lib (λ a b. a ≡ b) send incoming send incoming psk (codes "e, ee")
      (codes "e, ee") (codes "e, ee") (codes "e") (codes "e") (codes "e") refl exchange
