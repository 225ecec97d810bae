-- ===== src/PhpSerialize/RoundTrip/Properties.antt =====
-- The loop over the properties of an object.
use laravel_queue_go.Prelude.{
  subst, ℕ, zero, suc, ◌+◌, ◌≤◌, ◌≡◌, refl, false, [], ◌∷◌, ◌++◌, length, append-nil, append_assoc,
  length-append, arith, All,
}
use laravel_queue_go.Prelude.Bytes.{Bytes, ◌=b◌, =b-false_sym}
use laravel_queue_go.Prelude.Dict.{Dict, put, put-Absent, Distinct, Absent}
use laravel_queue_go.PhpSerialize.Floats.{FloatText}
use laravel_queue_go.PhpSerialize.Value.{Value}
use laravel_queue_go.PhpSerialize.Encoder.{Encoded, join_properties, encode_string}
use laravel_queue_go.PhpSerialize.Decoder.{read_properties}
use laravel_queue_go.PhpSerialize.RoundTrip.Rules.{Reads, Reads-bind, Reads-input, pure-Reads}
use laravel_queue_go.PhpSerialize.RoundTrip.Scalars.{read_string-Reads}
use laravel_queue_go.Prelude.Result.{ok, bind}
use laravel_queue_go.PhpSerialize.RoundTrip.Texts.{Fits, Prints, length-encode_string}
use laravel_queue_go.PhpSerialize.Normal.{IsPlain}
use laravel_queue_go.PhpSerialize.Names.{strip_visibility}
use laravel_queue_go.PhpSerialize.RoundTrip.Loops.{AllPropertiesPrint}

Absent-append :
    {V : Type 0} (k j : Bytes) (v : V) (m : Dict V)
    → (j =b k) ≡ false
    → Absent k m
    → Absent k (m ++ (j, v) ∷ [])
Absent-append k j v [] e _ = (e, tt)
Absent-append k j v ((i, w) ∷ m) e (h, hs) = (h, Absent-append k j v m e hs)

-- No key of the second map stands in the first.
abbrev pub AllAbsent : Dict Value → Dict Value → Type 0
AllAbsent m [] = Unit
AllAbsent m ((k, v) ∷ ws) = Absent k m × AllAbsent m ws

AllAbsent-append :
    (m : Dict Value) (j : Bytes) (v : Value) (ws : Dict Value)
    → AllAbsent m ws
    → Absent j ws
    → AllAbsent (m ++ (j, v) ∷ []) ws
AllAbsent-append m j v [] _ _ = tt
AllAbsent-append m j v ((k, w) ∷ ws) (h, hs) (e, es) =
    (Absent-append k j v m (=b-false_sym k j e) h, AllAbsent-append m j v ws hs es)

pub AllAbsent-nil : (ws : Dict Value) → AllAbsent [] ws
AllAbsent-nil [] = tt
AllAbsent-nil (w ∷ ws) = (tt, AllAbsent-nil ws)

module _ (fl : FloatText) where
  -- The encodings of properties come to one text, which the loop reads back behind any others.
  pub record PropertyLoops (r : Encoded) (n : ℕ) (ws : Dict Value) : Type 0 where
    pub text : Bytes
    pub encoded : r ≡ ok text
    pub counted : n ≤ length text
    pub reads :
        (L f : ℕ) (rest : Bytes) (m : Dict Value)
        → AllAbsent m ws
        → Fits L f text
        → Reads L (read_properties fl f n m) (text ++ rest) (m ++ ws) rest

  nil-PropertyLoops : PropertyLoops (ok []) 0 []
  unfolding read_properties
  nil-PropertyLoops = record { text = []; encoded = refl; counted = omega arith; reads = step }
    where
      step :
          (L f : ℕ) (rest : Bytes) (m : Dict Value)
          → Unit {0}
          → Fits L f []
          → Reads L (read_properties fl f 0 m) rest (m ++ []) rest
      step L zero rest m _ fits = absurd (omega (arith, fits.fuel))
      step L (suc f) rest m _ fits = rw (append-nil m) (pure-Reads m)

  cons-PropertyLoops :
      {r e : Encoded} {k : Bytes} {w : Value} {n : ℕ} {ws : Dict Value}
      → IsPlain (k, w)
      → Absent k ws
      → Prints fl r w
      → PropertyLoops e n ws
      → PropertyLoops
          (bind r λ b. bind e λ rest. ok (encode_string k ++ (b ++ rest)))
          (suc n)
          ((k, w) ∷ ws)
  unfolding read_properties
  cons-PropertyLoops {k = k} {w = w} {n = n} {ws = ws} plain fresh value more = record {
    text = encode_string k ++ (value.text ++ more.text);
    encoded = rw (value.encoded, more.encoded);
    counted = omega (arith, lengths, not_empty, more.counted);
    reads = step;
  }
    where
      lengths :
          length (encode_string k ++ (value.text ++ more.text))
          ≡ length (encode_string k) + length value.text + length more.text
      lengths = omega (
        arith,
        length-append (encode_string k) (value.text ++ more.text),
        length-append value.text more.text,
      )

      not_empty : 2 ≤ length (encode_string k)
      not_empty = unfold encode_string in omega arith

      step :
          (L f : ℕ) (rest : Bytes) (m : Dict Value)
          → AllAbsent m ((k, w) ∷ ws)
          → Fits L f (encode_string k ++ (value.text ++ more.text))
          → Reads L
              (read_properties fl f (suc n) m)
              ((encode_string k ++ (value.text ++ more.text)) ++ rest)
              (m ++ (k, w) ∷ ws)
              rest
      step L zero rest m _ fits = absurd (omega (arith, fits.fuel))
      step L (suc f) rest m (absent, absents) fits =
          let value_fits : Fits L f value.text = omega (arith, fits, lengths, not_empty) in
          let more_fits : Fits L f more.text = omega (arith, fits, lengths, not_empty) in
          let last : Reads L (read_properties fl f n (put (strip_visibility k) w m))
              (more.text ++ rest) (m ++ (k, w) ∷ ws) rest =
            rw (plain, put-Absent k w m absent)
              (subst
                (λ l.
                  Reads L (read_properties fl f n (m ++ (k, w) ∷ [])) (more.text ++ rest) l rest)
                (append_assoc m ((k, w) ∷ []) ws)
                (more.reads L f rest (m ++ (k, w) ∷ []) (AllAbsent-append m k w ws absents fresh)
                  more_fits)) in
          Reads-input (simp append_assoc) (
            Reads-bind _
              (read_string-Reads k _ fits.small
                (omega (arith, fits, lengths, length-encode_string fl k)))
              (Reads-bind _ (value.reads L f _ value_fits) last))

  pub object-PropertyLoops :
      (rs : Dict Encoded) (ws : Dict Value)
      → Distinct ws
      → All IsPlain ws
      → AllPropertiesPrint fl rs ws
      → PropertyLoops (join_properties rs) (length rs) ws
  unfolding join_properties
  object-PropertyLoops [] [] _ _ _ = nil-PropertyLoops
  object-PropertyLoops [] (w ∷ ws) _ _ h = elim h [ ]
  object-PropertyLoops (r ∷ rs) [] _ _ h = elim h [ ]
  object-PropertyLoops ((k, r) ∷ rs) ((j, w) ∷ ws) (fresh, distinct) (plain, plains) (e, h, hs) =
      let more = object-PropertyLoops rs ws distinct plains hs in
      rw e (cons-PropertyLoops plain fresh h more)
