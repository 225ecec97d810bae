-- ===== src/PhpSerialize/RoundTrip/Loops.antt =====
-- The loops over the entries of an array and over the properties of an object.
use laravel_queue_go.Prelude.{
  subst, ℕ, zero, suc, ◌+◌, ◌≤◌, ◌≡◌, refl, List, [], ◌∷◌, ◌++◌, length, append_assoc,
  length-append, arith, All,
}
use laravel_queue_go.Prelude.Bytes.{Bytes}
use laravel_queue_go.Prelude.Dict.{Dict}
use laravel_queue_go.Prelude.Int.{ℤ, pos, max_int64, InInt64}
use laravel_queue_go.PhpSerialize.Floats.{FloatText}
use laravel_queue_go.PhpSerialize.Value.{Value, IntKind, int, string}
use laravel_queue_go.PhpSerialize.Encoder.{
  Encoded, join_slice, join_properties, join_array, encode_key, write_int, encode_string,
}
use laravel_queue_go.PhpSerialize.Decoder.{max_items, read_entries, read_array_key}
use laravel_queue_go.PhpSerialize.RoundTrip.Rules.{Reads, Reads-bind, Reads-input, pure-Reads}
use laravel_queue_go.PhpSerialize.RoundTrip.Scalars.{
  at_byte-Reads, read_int-Reads, read_string_value-Reads,
}
use laravel_queue_go.Prelude.Result.{ok, bind}
use laravel_queue_go.PhpSerialize.RoundTrip.Texts.{Fits, Prints, length-encode_string}
use laravel_queue_go.PhpSerialize.Normal.{indexed, string_keys, zip_keys, IsKey}

module _ (fl : FloatText) where
  -- The text of an array key, and the key.
  pub record KeyText (t : Bytes) (k : Value) : Type 0 where
    pub not_empty : 1 ≤ length t
    pub reads :
        {L : ℕ} (rest : Bytes)
        → L ≤ max_items
        → length t ≤ L
        → Reads L read_array_key (t ++ rest) k rest

  -- The encodings of n entries come to one text, which the loop reads back as `es`.
  pub record Loops (r : Encoded) (n : ℕ) (es : List (Value × Value)) : Type 0 where
    pub text : Bytes
    pub encoded : r ≡ ok text
    pub counted : n ≤ length text
    pub reads :
        (L f : ℕ) (rest : Bytes)
        → Fits L f text
        → Reads L (read_entries fl f n) (text ++ rest) es rest

  pub nil-Loops : Loops (ok []) 0 []
  unfolding read_entries
  nil-Loops = record { text = []; encoded = refl; counted = omega arith; reads = step }
    where
      step : (L f : ℕ) (rest : Bytes) → Fits L f [] → Reads L (read_entries fl f 0) rest [] rest
      step L zero rest fits = absurd (omega (arith, fits.fuel))
      step L (suc f) rest fits = pure-Reads []

  pub cons-Loops :
      {r e : Encoded} {t : Bytes} {k w : Value} {n : ℕ} {es : List (Value × Value)}
      → KeyText t k
      → Prints fl r w
      → Loops e n es
      → Loops (bind r λ b. bind e λ rest. ok (t ++ (b ++ rest))) (suc n) ((k, w) ∷ es)
  unfolding read_entries
  cons-Loops {t = t} {k = k} {w = w} {n = n} {es = es} key value more = record {
    text = t ++ (value.text ++ more.text);
    encoded = rw (value.encoded, more.encoded);
    counted = omega (arith, key.not_empty, more.counted, lengths);
    reads = step;
  }
    where
      lengths :
          length (t ++ (value.text ++ more.text)) ≡ length t + length value.text + length more.text
      lengths =
          omega
            (arith, length-append t (value.text ++ more.text), length-append value.text more.text)

      step :
          (L f : ℕ) (rest : Bytes)
          → Fits L f (t ++ (value.text ++ more.text))
          → Reads L
              (read_entries fl f (suc n))
              ((t ++ (value.text ++ more.text)) ++ rest)
              ((k, w) ∷ es)
              rest
      step L zero rest fits = absurd (omega (arith, fits.fuel))
      step L (suc f) rest fits =
          let value_fits : Fits L f value.text = omega (arith, fits, lengths, key.not_empty) in
          let more_fits : Fits L f more.text = omega (arith, fits, lengths, key.not_empty) in
          Reads-input (simp append_assoc) (
            Reads-bind _ (key.reads _ fits.small (omega (arith, fits, lengths))) (
              Reads-bind _ (value.reads L f _ value_fits)
                (Reads-bind _ (more.reads L f rest more_fits) (pure-Reads ((k, w) ∷ es)))))

  int-KeyText : (z : ℤ) → InInt64 z → KeyText (write_int z) (int IntKind.int64 z)
  unfolding read_array_key write_int
  int-KeyText z h = record {
    not_empty = omega arith;
    reads = λ rest _ _. at_byte-Reads _ (read_int-Reads z rest h);
  }

  pub string-KeyText : (s : Bytes) → KeyText (encode_string s) (string s)
  unfolding read_array_key encode_string
  string-KeyText s = record {
    not_empty = omega arith;
    reads = λ rest small le.
        at_byte-Reads _
          (read_string_value-Reads s rest small (omega (arith, length-encode_string fl s)));
  }

  -- Encodings and the values that they are read back as, one by one.
  abbrev pub AllPrint : List Encoded → List Value → Type 0
  AllPrint [] [] = Unit
  AllPrint [] (w ∷ ws) = ⊥
  AllPrint (r ∷ rs) [] = ⊥
  AllPrint (r ∷ rs) (w ∷ ws) = Prints fl r w × AllPrint rs ws

  pub slice-Loops :
      (i : ℕ) (rs : List Encoded) (ws : List Value)
      → AllPrint rs ws
      → i + length rs ≤ max_int64
      → Loops (join_slice i rs) (length rs) (indexed i ws)
  unfolding join_slice
  slice-Loops i [] [] _ _ = nil-Loops
  slice-Loops i [] (w ∷ ws) h _ = elim h [ ]
  slice-Loops i (r ∷ rs) [] h _ = elim h [ ]
  slice-Loops i (r ∷ rs) (w ∷ ws) (h, hs) le =
      cons-Loops (int-KeyText (pos i) (omega arith)) h (slice-Loops (i + 1) rs ws hs (omega arith))

  -- The text of a key of an `Array`.
  key_text : (k : Value) → IsKey k → (t : Bytes) × (encode_key k ≡ ok t) × KeyText t k
  unfolding encode_key
  key_text (int IntKind.int64 z) h = (write_int z, refl, int-KeyText z h)
  key_text (string s) h = (encode_string s, refl, string-KeyText s)
  key_text _ h = elim h [ ]

  pub array-Loops :
      (ks : List Value) (rs : List Encoded) (ws : List Value)
      → All IsKey ks
      → length ks ≡ length rs
      → AllPrint rs ws
      → Loops (join_array ks rs) (length ks) (zip_keys ks ws)
  unfolding join_array
  array-Loops [] rs ws _ _ _ = nil-Loops
  array-Loops (k ∷ ks) [] ws _ same h = absurd (omega arith)
  array-Loops (k ∷ ks) (r ∷ rs) [] _ _ h = elim h [ ]
  array-Loops (k ∷ ks) (r ∷ rs) (w ∷ ws) (kh, khs) same (h, hs) =
      let (t, e, key) = key_text k kh in
      rw e (cons-Loops key h (array-Loops ks rs ws khs (omega arith) hs))

  -- Encoded and decoded properties under the same keys.
  abbrev pub AllPropertiesPrint : Dict Encoded → Dict Value → Type 0
  AllPropertiesPrint [] [] = Unit
  AllPropertiesPrint [] (w ∷ ws) = ⊥
  AllPropertiesPrint (r ∷ rs) [] = ⊥
  AllPropertiesPrint (r ∷ rs) (w ∷ ws) = (r.0 ≡ w.0) × Prints fl r.1 w.1 × AllPropertiesPrint rs ws

  pub map-Loops :
      (rs : Dict Encoded) (ws : Dict Value)
      → AllPropertiesPrint rs ws
      → Loops (join_properties rs) (length rs) (string_keys ws)
  unfolding join_properties
  map-Loops [] [] _ = nil-Loops
  map-Loops [] (w ∷ ws) h = elim h [ ]
  map-Loops (r ∷ rs) [] h = elim h [ ]
  map-Loops ((k, r) ∷ rs) ((j, w) ∷ ws) (e, h, hs) =
      cons-Loops (subst (λ j. KeyText (encode_string k) (string j)) e (string-KeyText k)) h
        (map-Loops rs ws hs)
