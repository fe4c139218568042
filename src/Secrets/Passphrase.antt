-- ===== src/Secrets/Passphrase.antt =====
-- internal/adapters/crypto/passphrase/passphrase.go. The word list and crypto/rand are parameters.
use claude_share.Base.{
  ℕ, zero, suc, ◌<◌, ◌≡◌, refl, ap, false, Bytes, codes, none, some, List, [], ◌∷◌, ◌++◌, ◌==◌, ltb,
  if◌then◌else◌, ◌⊎◌, inl, inr, length, get_elem?, All, Error, Result-cases, ok, err, word_count,
  empty_wordlist, out_of_range, arith,
}
use claude_share.Base.Exec.{Exec, pure, fail, ◌>>=◌}

abbrev pub default_words : ℕ
default_words = 6

-- strings.Join
unfoldable pub join : Bytes → List Bytes → Bytes
join sep [] = []
join sep (w ∷ []) = w
join sep (w ∷ v ∷ ws) = w ++ sep ++ join sep (v ∷ ws)

module _ {S : Type 0} (rand_int : ℕ → Exec S ℕ) (words : List Bytes) where
  -- `words[i]`; an index that is out of range ends the program.
  word_at : ℕ → Exec S Bytes
  word_at i = elim (get_elem? words i) [ some w ↦ pure w | none ↦ fail out_of_range ]

  -- The loop of `Generate`.
  choose : ℕ → Exec S (List Bytes)
  unfolding word_at
  choose zero = pure []
  choose (suc n) =
      let rest = choose n in
      do idx ← rand_int (length words); w ← word_at idx; ws ← rest; pure (w ∷ ws)

  -- `Generate`. A count below 1, which Go's int has more of, is 0 here.
  unfoldable pub generate : ℕ → Exec S Bytes
  unfolding choose join
  generate n =
      if ltb n 1
      then fail word_count
      else if length words == 0
      then fail empty_wordlist
      else do chosen ← choose n; pure (join (codes "-") chosen)

-- Where the words are drawn from.
pub IsWord : List Bytes → Bytes → Type 0
IsWord words w = (i : ℕ) × (get_elem? words i ≡ some w)

get_elem?-in_range :
    (words : List Bytes) (i : ℕ) → i < length words → (w : Bytes) × (get_elem? words i ≡ some w)
get_elem?-in_range [] i h = absurd (omega arith)
get_elem?-in_range (w ∷ ws) zero h = (w, refl)
get_elem?-in_range (w ∷ ws) (suc i) h = get_elem?-in_range ws i (omega arith)

module _ {S : Type 0} (rand_int : ℕ → Exec S ℕ) (words : List Bytes)
    -- rand.Int returns a number below its bound.
    (in_range : (max i : ℕ) (s : S) → (rand_int max s).0 ≡ ok i → i < max) where
  pub Failed : Error → Type 0
  Failed e = (max : ℕ) × (s : S) × ((rand_int max s).0 ≡ err e)

  word_at_lem :
      (i : ℕ) (w : Bytes) (s : S)
      → get_elem? words i ≡ some w
      → word_at rand_int words i s ≡ (ok w, s)
  unfolding word_at
  word_at_lem i w s at = rw (at, word_at) refl

  choose_lem :
      (n : ℕ) (s : S)
      → ((ws : List Bytes) × ((choose rand_int words n s).0 ≡ ok ws)
          × (length ws ≡ n)
          × All (IsWord words) ws)
        ⊎ ((e : Error) × ((choose rand_int words n s).0 ≡ err e) × Failed e)
  unfolding choose Failed IsWord
  choose_lem zero s = inl ([], refl, refl, tt)
  choose_lem (suc n) s = elim (Result-cases (rand_int (length words) s).0) [
    | inl (e, h) ↦ rw h (inr (e, refl, (length words, s, h)))
    | inr (i, h) ↦
        let (w, at) = get_elem?-in_range words i (in_range (length words) i s h) in
        rw (h, word_at_lem i w (rand_int (length words) s).1 at)
          (elim (choose_lem n (rand_int (length words) s).1) [
            | inl (ws, run, len, all) ↦ rw run (inl (w ∷ ws, refl, ap suc len, ((i, at), all)))
            | inr (e, run, failed) ↦ rw run (inr (e, refl, failed))
          ])
  ]

  -- Generate of at least one word returns so many words of the list, joined, or the error of the
  -- random source; it never reads the list out of range.
  pub generate_joins :
      (n : ℕ) (s : S)
      → 0 < n
      → 0 < length words
      → ((ws : List Bytes) × ((generate rand_int words n s).0 ≡ ok (join (codes "-") ws))
          × (length ws ≡ n)
          × All (IsWord words) ws)
        ⊎ ((e : Error) × ((generate rand_int words n s).0 ≡ err e) × Failed e)
  unfolding generate
  generate_joins n s some_words listed =
      let some_lem : ltb n 1 ≡ false = ground (arith, some_words) in
      let listed_lem : (length words == 0) ≡ false = ground (arith, listed) in
      rw (some_lem, listed_lem)
        (elim (choose_lem n s) [
          | inl (ws, run, len, all) ↦ rw run (inl (ws, refl, len, all))
          | inr (e, run, failed) ↦ rw run (inr (e, refl, failed))
        ])
