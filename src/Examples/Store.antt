-- ===== src/Examples/Store.antt =====
-- A blob store on a disk on which the third call fails, with a stand-in for SHA-256.
use claude_share.Base.{
  ℕ, ◌%◌, ◌≡◌, ◌⊎◌, refl, Bytes, bytes_eq, codes, none, some, [], ◌∷◌, length, replicate,
  if◌then◌else◌, ◌==◌, ok, foreign, arith, All, IsByte,
}
use claude_share.Base.Dict
use claude_share.Base.Dict.{bytes_key}
use claude_share.Base.Disk.{Disk, World}
use claude_share.Fsutil.Hash.{hash_content, encode_to_string}
use claude_share.Fsstore.Blobs.{valid_hash, put}
use claude_share.Fsstore.Blobs.Atomic.{put_atomic, put-IsAddressed, IsAddressed}
use claude_share.Fsstore.Blobs.Stored.{IsSha256, valid_hash-hash_content}

abbrev pub sum : Bytes → Bytes
sum b = (length b % 256) ∷ replicate 31 0

pub sum-IsSha256 : IsSha256 sum
unfolding IsSha256
sum-IsSha256 b = (refl, (omega arith, all_zero 31))
  where
    all_zero : (n : ℕ) → All IsByte (replicate n 0)
    all_zero ℕ.zero = tt
    all_zero (ℕ.suc n) = (omega arith, all_zero n)

abbrev failing : World
failing = record {
  faults = λ t. if t == 2 then some (foreign (codes "disk full")) else none;
  written = λ t. 1;
  random = λ t. t ∷ [];
}

abbrev pub working : World
working = record { faults = λ t. none; written = λ t. 0; random = λ t. t ∷ [] }

abbrev pub hi : Bytes
hi = codes "hi"

abbrev pub empty : Disk
empty = record { files = []; time = 0 }

put_atomic_example :
    (Dict.get (hash_content sum hi) (put sum failing (hash_content sum hi) hi empty).1.files
      ≡ Dict.get (hash_content sum hi) [])
    ⊎ ((hash_content sum hi ≡ hash_content sum hi)
        × (hash_content sum hi ≡ hash_content sum hi)
        × (Dict.get (hash_content sum hi) (put sum failing (hash_content sum hi) hi empty).1.files
            ≡ some hi))
put_atomic_example =
    put_atomic sum failing (hash_content sum hi) hi (hash_content sum hi) empty
      (valid_hash-hash_content sum hi sum-IsSha256)

pub empty-IsAddressed : IsAddressed sum empty
unfolding IsAddressed Dict.get
empty-IsAddressed k c valid found = cc found

put-IsAddressed_example : IsAddressed sum (put sum failing (hash_content sum hi) hi empty).1
put-IsAddressed_example =
    put-IsAddressed sum failing (hash_content sum hi) hi empty empty-IsAddressed

abbrev hi_hash : Bytes
hi_hash = 48 ∷ 50 ∷ replicate 62 48

hi_put : (put sum working hi_hash hi empty).0 ≡ ok tt
unfolding put valid_hash hash_content encode_to_string bytes_eq Dict.get Dict.put Dict.delete
hi_put = refl
