-- ===== src/PhpSerialize/RoundTrip/Sorting.antt =====
-- Sorting by key, and what holds of all entries.
use laravel_queue_go.Prelude.{
  suc, ◌≡◌, inl, inr, refl, Bool-cases, false, [], ◌∷◌, length, arith, All,
}
use laravel_queue_go.Prelude.Bytes.{leq_b, Bytes, ◌=b◌, =b-false_sym}
use laravel_queue_go.Prelude.Dict.{Dict, Distinct, Absent}
use laravel_queue_go.PhpSerialize.Floats.{FloatText}
use laravel_queue_go.PhpSerialize.Value.{Value}
use laravel_queue_go.PhpSerialize.Encoder.{Encoded, sort_keys, insert_key}
use laravel_queue_go.PhpSerialize.RoundTrip.Texts.{Prints}
use laravel_queue_go.PhpSerialize.RoundTrip.Loops.{AllPropertiesPrint}

module _ {A : Type 0} where
  insert_key-Absent :
      (k j : Bytes) (v : A) (m : Dict A)
      → (j =b k) ≡ false
      → Absent k m
      → Absent k (insert_key (j, v) m)
  unfolding insert_key
  insert_key-Absent k j v [] e _ = (e, tt)
  insert_key-Absent k j v ((i, w) ∷ m) e (h, hs) = elim (Bool-cases (leq_b j i)) [
    | inl le ↦ rw le (e, (h, hs))
    | inr gt ↦ rw gt (h, insert_key-Absent k j v m e hs)
  ]

  insert_key-Distinct :
      (j : Bytes) (v : A) (m : Dict A) → Absent j m → Distinct m → Distinct (insert_key (j, v) m)
  unfolding insert_key
  insert_key-Distinct j v [] _ _ = (tt, tt)
  insert_key-Distinct j v ((i, w) ∷ m) (e, es) (h, hs) = elim (Bool-cases (leq_b j i)) [
    | inl le ↦ rw le ((e, es), (h, hs))
    | inr gt ↦
        rw gt (insert_key-Absent i j v m (=b-false_sym i j e) h, insert_key-Distinct j v m es hs)
  ]

  sort_keys-Absent : (k : Bytes) (m : Dict A) → Absent k m → Absent k (sort_keys m)
  unfolding sort_keys
  sort_keys-Absent k [] _ = tt
  sort_keys-Absent k ((j, v) ∷ m) (h, hs) =
      insert_key-Absent k j v (sort_keys m) h (sort_keys-Absent k m hs)

  pub sort_keys-Distinct : (m : Dict A) → Distinct m → Distinct (sort_keys m)
  unfolding sort_keys
  sort_keys-Distinct [] _ = tt
  sort_keys-Distinct ((j, v) ∷ m) (h, hs) =
      insert_key-Distinct j v (sort_keys m) (sort_keys-Absent j m h) (sort_keys-Distinct m hs)

  insert_key-All :
      (P : Bytes × A → Type 0) (e : Bytes × A) (m : Dict A) → P e → All P m → All P (insert_key e m)
  unfolding insert_key
  insert_key-All P e [] h _ = (h, tt)
  insert_key-All P (k, v) ((j, w) ∷ m) h (p, ps) = elim (Bool-cases (leq_b k j)) [
    | inl le ↦ rw le (h, (p, ps))
    | inr gt ↦ rw gt (p, insert_key-All P (k, v) m h ps)
  ]

  pub sort_keys-All : (P : Bytes × A → Type 0) (m : Dict A) → All P m → All P (sort_keys m)
  unfolding sort_keys
  sort_keys-All P [] _ = tt
  sort_keys-All P (e ∷ m) (h, hs) = insert_key-All P e (sort_keys m) h (sort_keys-All P m hs)

  length-insert_key : (e : Bytes × A) (m : Dict A) → length (insert_key e m) ≡ suc (length m)
  unfolding insert_key
  length-insert_key e [] = refl
  length-insert_key (k, v) ((j, w) ∷ m) = ground (arith, length-insert_key (k, v) m)

  pub length-sort_keys : (m : Dict A) → length (sort_keys m) ≡ length m
  unfolding sort_keys
  length-sort_keys [] = refl
  length-sort_keys (e ∷ m) = omega (arith, length-insert_key e (sort_keys m), length-sort_keys m)

module _ (fl : FloatText) where
  insert_key-AllPropertiesPrint :
      (k j : Bytes) (r : Encoded) (w : Value) (rs : Dict Encoded) (ws : Dict Value)
      → k ≡ j
      → Prints fl r w
      → AllPropertiesPrint fl rs ws
      → AllPropertiesPrint fl (insert_key (k, r) rs) (insert_key (j, w) ws)
  unfolding insert_key
  insert_key-AllPropertiesPrint k j r w [] [] e h _ = (e, h, tt)
  insert_key-AllPropertiesPrint k j r w [] (x ∷ ws) e h hs = elim hs [ ]
  insert_key-AllPropertiesPrint k j r w (x ∷ rs) [] e h hs = elim hs [ ]
  insert_key-AllPropertiesPrint k j r w ((k', r') ∷ rs) ((j', w') ∷ ws) e h (e', h', hs) =
      elim (Bool-cases (leq_b k k')) [
        | inl le ↦ rw (le, rw (e, e') at le) (e, h, (e', h', hs))
        | inr gt ↦
            rw (gt, rw (e, e') at gt) (e', h', insert_key-AllPropertiesPrint k j r w rs ws e h hs)
      ]

  pub sort_keys-AllPropertiesPrint :
      (rs : Dict Encoded) (ws : Dict Value)
      → AllPropertiesPrint fl rs ws
      → AllPropertiesPrint fl (sort_keys rs) (sort_keys ws)
  unfolding sort_keys
  sort_keys-AllPropertiesPrint [] [] _ = tt
  sort_keys-AllPropertiesPrint [] (w ∷ ws) h = elim h [ ]
  sort_keys-AllPropertiesPrint (r ∷ rs) [] h = elim h [ ]
  sort_keys-AllPropertiesPrint ((k, r) ∷ rs) ((j, w) ∷ ws) (e, h, hs) =
      insert_key-AllPropertiesPrint k j r w (sort_keys rs) (sort_keys ws) e h
        (sort_keys-AllPropertiesPrint rs ws hs)
