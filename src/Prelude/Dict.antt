-- ===== src/Prelude/Dict.antt =====
-- Go maps with string keys, as association lists in which no key stands twice.
use laravel_queue_go.Prelude.{
  ◌≡◌, refl, false, Option, none, some, List, [], ◌∷◌, ◌++◌, arith, if◌then◌else◌,
}
use laravel_queue_go.Prelude.Bytes.{Bytes, ◌=b◌, eq_iff}

abbrev pub Dict {ℓ} : Type ℓ → Type ℓ
Dict V = List (Bytes × V)

module _ {ℓ} {V : Type ℓ} where
  -- `m[k]` with the `, ok` form.
  unfoldable pub lookup : Bytes → Dict V → Option V
  lookup k [] = none
  lookup k ((j, v) ∷ m) = if j =b k then some v else lookup k m

  -- `m[k] = v`: a key that is there keeps its place.
  unfoldable pub put : Bytes → V → Dict V → Dict V
  put k v [] = (k, v) ∷ []
  put k v ((j, w) ∷ m) = if j =b k then (k, v) ∷ m else (j, w) ∷ put k v m

  -- `delete(m, k)`.
  unfoldable pub remove : Bytes → Dict V → Dict V
  remove k [] = []
  remove k ((j, v) ∷ m) = let rest = remove k m in if j =b k then rest else (j, v) ∷ rest

  pub lookup-put :
      (k j : Bytes) (v : V) (m : Dict V)
      → lookup j (put k v m) ≡ (if k =b j then some v else lookup j m)
  unfolding lookup put
  lookup-put k j v [] = refl
  lookup-put k j v ((i, w) ∷ m) =
      ground (arith, eq_iff k j, eq_iff i k, eq_iff i j, lookup-put k j v m)

  pub lookup-remove :
      (k j : Bytes) (m : Dict V) → lookup j (remove k m) ≡ (if k =b j then none else lookup j m)
  unfolding lookup remove
  lookup-remove k j [] = ground arith
  lookup-remove k j ((i, w) ∷ m) =
      ground (arith, eq_iff k j, eq_iff i k, eq_iff i j, lookup-remove k j m)

  -- No entry has this key.
  abbrev pub Absent : Bytes → Dict V → Type 0
  Absent k [] = Unit
  Absent k ((j, v) ∷ m) = ((j =b k) ≡ false) × Absent k m

  -- No key stands twice.
  abbrev pub Distinct : Dict V → Type 0
  Distinct [] = Unit
  Distinct ((k, v) ∷ m) = Absent k m × Distinct m

  pub put-Absent : (k : Bytes) (v : V) (m : Dict V) → Absent k m → put k v m ≡ m ++ (k, v) ∷ []
  unfolding put
  put-Absent k v [] h = refl
  put-Absent k v ((j, w) ∷ m) (h, hs) = ground (arith, put-Absent k v m hs)
