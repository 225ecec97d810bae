-- ===== src/DbUtil/Tables.antt =====
-- The tables' names that the repository of batches and the provider of failed jobs are made with.
use laravel_queue_go.Prelude.{
  ℕ, ◌≤◌, ◌≡◌, refl, ◌⊎◌, ◌↔◌, sym, subst, Bool, true, false, ◌&&◌, [], ◌∷◌, All, if◌then◌else◌,
  arith,
}
use laravel_queue_go.Prelude.Bytes.{Bytes, codes, ◌=b◌}
use laravel_queue_go.Prelude.Result.{Result, ok, err}
use laravel_queue_go.DbUtil.{is_letter, is_word, all_words, valid_table_name}
use laravel_queue_go.Batch.Repository.{repository_table}
use laravel_queue_go.Failed.{provider_table}

abbrev pub IsLetter : ℕ → Type 0
IsLetter c = ((97 ≤ c) × (c ≤ 122)) ⊎ (((65 ≤ c) × (c ≤ 90)) ⊎ (c ≡ 95))

abbrev pub IsWord : ℕ → Type 0
IsWord c = IsLetter c ⊎ ((48 ≤ c) × (c ≤ 57))

-- An identifier of SQL: nothing that ends it or starts another token.
pub data IsName : Bytes → Type 0 where
  name_of : (c : ℕ) (cs : Bytes) → IsLetter c → All IsWord cs → IsName (c ∷ cs)

is_letter-IsLetter : (c : ℕ) → is_letter c ≡ true → IsLetter c
is_letter-IsLetter c h = ground arith

is_word-IsWord : (c : ℕ) → is_word c ≡ true → IsWord c
is_word-IsWord c h = ground arith

both : (a b : Bool) → (a && b) ≡ true → (a ≡ true) × (b ≡ true)
both true b h = (refl, h)
both false b h = cc h

all_words-All : (cs : Bytes) → all_words cs ≡ true → All IsWord cs
all_words-All [] h = tt
all_words-All (c ∷ cs) h =
    let g = both (is_word c) (all_words cs) h in (is_word-IsWord c g.0, all_words-All cs g.1)

valid-IsName : (t : Bytes) → valid_table_name t ≡ true → IsName t
valid-IsName [] h = cc h
valid-IsName (c ∷ cs) h =
    let g = both (is_letter c) (all_words cs) h in
    name_of c cs (is_letter-IsLetter c g.0) (all_words-All cs g.1)

IsLetter-is_letter : (c : ℕ) → IsLetter c → is_letter c ≡ true
IsLetter-is_letter c h = ground arith

IsWord-is_word : (c : ℕ) → IsWord c → is_word c ≡ true
IsWord-is_word c h = ground arith

All-all_words : (cs : Bytes) → All IsWord cs → all_words cs ≡ true
All-all_words [] h = refl
All-all_words (c ∷ cs) (h, hs) = rw (IsWord-is_word c h, All-all_words cs hs) refl

module _ {E : Type 0} (invalid : Bytes → E) where
  abbrev checked : Bytes → Result E Bytes
  checked u = if valid_table_name u then ok u else err (invalid u)

  IsName-checked : (u : Bytes) → IsName u → checked u ≡ ok u
  IsName-checked _ (name_of c cs h hs) = rw (IsLetter-is_letter c h, All-all_words cs hs) refl

  checked-ok :
      (u t : Bytes) (b : Bool)
      → valid_table_name u ≡ b
      → (if b then Result.ok u else err (invalid u)) ≡ Result.ok t
      → (t ≡ u) × IsName t
  checked-ok u t true v h = let e : u ≡ t = cc h in (sym e, subst IsName e (valid-IsName u v))
  checked-ok u t false v h = cc h

  checked_iff : (u t : Bytes) → (checked u ≡ ok t) ↔ ((t ≡ u) × IsName t)
  checked_iff u t = (
    checked-ok u t (valid_table_name u) refl,
    λ (e, n). subst (λ x. checked x ≡ ok t) e (IsName-checked t n),
  )

  -- NewRepository and NewDatabaseProvider make their statements with a table's name exactly when it
  -- is the one asked for, or `job_batches` and `failed_jobs` for the empty one, and an identifier: a
  -- letter or `_`, then letters, digits and `_`.
  pub table-IsName :
      (name t : Bytes)
      → ((repository_table invalid name ≡ ok t)
          ↔ ((t ≡ (if name =b [] then codes "job_batches" else name)) × IsName t))
        × ((provider_table invalid name ≡ ok t)
            ↔ ((t ≡ (if name =b [] then codes "failed_jobs" else name)) × IsName t))
  unfolding repository_table provider_table
  table-IsName name t = (checked_iff _ t, checked_iff _ t)
