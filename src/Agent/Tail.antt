-- ===== src/Agent/Tail.antt =====
-- The ring buffer of internal/adapters/agent/claudecli/claudecli.go over many writes.
use claude_share.Base.{
  ℕ, zero, suc, ◌+◌, ◌-◌, ◌≤◌, ◌≡◌, refl, sym, ap, ◌∙◌, Bytes, List, [], ◌∷◌, ◌++◌, append_assoc,
  append-nil, length, drop, ltb, arith, length-append, length-drop, inl, inr, Bool-cases,
}
use claude_share.Agent.{RingBuffer, write}

unfoldable pub write_all : List Bytes → RingBuffer → RingBuffer
unfolding write
write_all [] r = r
write_all (p ∷ ps) r = write_all ps (write p r)

unfoldable pub concat : List Bytes → Bytes
concat [] = []
concat (p ∷ ps) = p ++ concat ps

-- The last n bytes.
unfoldable pub tail_of : ℕ → Bytes → Bytes
tail_of n b = drop (length b - n) b

drop-append : (n : ℕ) (a b : Bytes) → n ≤ length a → drop n (a ++ b) ≡ drop n a ++ b
drop-append zero a b h = refl
drop-append (suc n) [] b h = absurd (omega arith)
drop-append (suc n) (c ∷ a) b h = drop-append n a b (omega arith)

drop_nil : (n : ℕ) → drop {A = ℕ} n [] ≡ []
drop_nil zero = refl
drop_nil (suc n) = refl

drop_one_more : (c : ℕ) (b : Bytes) (n m : ℕ) → drop (suc n + m) (c ∷ b) ≡ drop (n + m) b
drop_one_more c b n m = ap (λ k. drop k (c ∷ b)) (e n m)
  where
    e : (n m : ℕ) → suc n + m ≡ suc (n + m)
    e n m = omega arith

drop-drop : (m n : ℕ) (b : Bytes) → drop m (drop n b) ≡ drop (n + m) b
drop-drop m zero b = ap (λ k. drop k b) (omega arith)
drop-drop m (suc n) [] = drop_nil m ∙ sym (drop_nil (suc n + m))
drop-drop m (suc n) (c ∷ b) = drop-drop m n b ∙ sym (drop_one_more c b n m)

write_buf : (p : Bytes) (r : RingBuffer) → (write p r).buf ≡ tail_of r.max (r.buf ++ p)
unfolding write tail_of
write_buf p r = elim (Bool-cases (ltb r.max (length (r.buf ++ p)))) [
  | inl h ↦ rw h refl
  | inr h ↦ rw h (
      let z : 0 ≡ length (r.buf ++ p) - r.max = ground (arith, h) in
      ap (λ k. drop k (r.buf ++ p)) z)
]

tail_of-append : (n : ℕ) (a p : Bytes) → tail_of n (tail_of n a ++ p) ≡ tail_of n (a ++ p)
unfolding tail_of
tail_of-append n a p =
    let k = length a - n in
    ap (λ x. drop (length (drop k a ++ p) - n) x) (sym (drop-append k a p (omega arith)))
    ∙ drop-drop (length (drop k a ++ p) - n) k (a ++ p)
    ∙ ap (λ j. drop j (a ++ p))
        (omega (arith, length-append (drop k a) p, length-append a p, length-drop k a))

write_all_from :
    (ps : List Bytes) (r : RingBuffer) (a : Bytes)
    → r.buf ≡ tail_of r.max a
    → (write_all ps r).buf ≡ tail_of r.max (a ++ concat ps)
unfolding write_all concat
write_all_from [] r a h = h ∙ ap (tail_of r.max) (sym (append-nil a))
write_all_from (p ∷ ps) r a h =
    write_all_from ps (write p r) (a ++ p)
      (write_buf p r ∙ ap (λ b. tail_of r.max (b ++ p)) h ∙ tail_of-append r.max a p)
    ∙ ap (tail_of r.max) (append_assoc a p (concat ps))

-- After any writes the buffer holds the last bytes of all that was written, as many as it keeps.
pub write_all_keeps_tail :
    (ps : List Bytes) (max : ℕ)
    → (write_all ps (record { buf = []; max = max })).buf ≡ tail_of max (concat ps)
unfolding tail_of
write_all_keeps_tail ps max =
    write_all_from ps (record { buf = []; max = max }) [] (sym (drop_nil (0 - max)))
