-- ===== src/PhpSerialize/Names/Agree.antt =====
-- stripVisibility and ParsePropertyName of pkg/phpserialize/decoder.go on one raw name.
use laravel_queue_go.Prelude.{
  ℕ, ◌≡◌, ◌==◌, ◌&&◌, refl, true, Option, none, some, [], ◌∷◌, Bool-cases, inl, inr, arith,
}
use laravel_queue_go.Prelude.Bytes.{Bytes}
use laravel_queue_go.PhpSerialize.Names.{
  split_first, after_first, strip_visibility, parse_property_name, is_protected, private_name,
  non_public,
}

behind : (raw : Bytes) (o : Option (Bytes × Bytes)) → after_first raw o ≡ (private_name raw o).name
unfolding after_first private_name
behind raw none = refl
behind raw (some (a, b)) = refl

-- The two bytes of a protected property are the star and the null byte.
star_null :
    (c d : ℕ) (s : Bytes)
    → (c == b'*' && d == 0) ≡ true
    → split_first 0 (c ∷ d ∷ s) ≡ some (c ∷ [], s)
unfolding split_first
star_null c d s h = ground (arith, h)

protected_or_private :
    (raw s : Bytes) (o : Option Bytes)
    → ((name : Bytes) → o ≡ some name → after_first raw (split_first 0 s) ≡ name)
    → after_first raw (split_first 0 s) ≡ (non_public raw s o).name
unfolding non_public
protected_or_private raw s none h = behind raw (split_first 0 s)
protected_or_private raw s (some name) h = h name refl

is_protected-after :
    (raw s name : Bytes) → is_protected s ≡ some name → after_first raw (split_first 0 s) ≡ name
unfolding is_protected after_first
is_protected-after raw [] name e = cc
is_protected-after raw (c ∷ []) name e = cc
is_protected-after raw (c ∷ d ∷ s) name e = elim (Bool-cases (c == b'*' && d == 0)) [
  | inl h ↦ let found : some s ≡ some name = rw h at e in rw (star_null c d s h) (cc found)
  | inr h ↦ let missing : none ≡ some name = rw h at e in cc missing
]

-- The name under which Decode stores a property is the one that ParsePropertyName gives, for every
-- raw name.
pub strip_visibility-name : (raw : Bytes) → strip_visibility raw ≡ (parse_property_name raw).name
unfolding strip_visibility parse_property_name
strip_visibility-name [] = refl
strip_visibility-name (c ∷ s) = elim (Bool-cases (c == 0)) [
  | inl e ↦ rw e (protected_or_private (c ∷ s) s (is_protected s) (is_protected-after (c ∷ s) s))
  | inr e ↦ rw e refl
]
