-- ===== src/PhpSerialize/RoundTrip/Floats.antt =====
-- The text of a float, read again.
use laravel_queue_go.Prelude.{
  ◌^◌, ℕ, ◌≤◌, ◌<◌, ◌≡◌, ◌⊎◌, inl, inr, refl, ◌∙◌, Bool-cases, true, false, some, [], ◌∷◌, ◌++◌,
  append_assoc, arith, ◌==◌, if◌then◌else◌, All,
}
use laravel_queue_go.Prelude.Bytes.{Bytes, codes, ◌=b◌}
use laravel_queue_go.Strconv.RoundTrip.{Lacks, IsDigit}
use laravel_queue_go.PhpSerialize.Floats.{FloatText, pos_inf, neg_inf, nan, is_nan, is_finite}
use laravel_queue_go.PhpSerialize.Value.{float64}
use laravel_queue_go.PhpSerialize.Encoder.{encode_float, float_text}
use laravel_queue_go.PhpSerialize.Decoder.{read_float, parse_float, to_upper}
use laravel_queue_go.PhpSerialize.RoundTrip.Rules.{
  Reads, Reads-bind, Reads-input, expect-Reads, read_until-Reads, skip-Reads, or_fail-Reads,
}
use laravel_queue_go.PhpSerialize.RoundTrip.Scalars.{then-Reads, keep-Reads}

abbrev IsLow : ℕ → Type 0
IsLow c = c ≤ b'9'

low : (s : Bytes) → All (λ c. IsDigit c ⊎ ((c ≡ b'.') ⊎ (c ≡ b'-'))) s → All IsLow s
low [] h = tt
low (c ∷ s) (h, hs) = (ground arith, low s hs)

low-Lacks : (s : Bytes) → All IsLow s → Lacks b';' s
low-Lacks [] h = tt
low-Lacks (c ∷ s) (h, hs) = (ground arith, low-Lacks s hs)

to_upper-IsLow : (s : Bytes) → All IsLow s → All IsLow (to_upper s)
unfolding to_upper
to_upper-IsLow [] h = tt
to_upper-IsLow (c ∷ []) h = ground arith
to_upper-IsLow (c ∷ d ∷ s) (hc, (hd, hs)) = ground (arith, to_upper-IsLow (d ∷ s) (hd, hs))

-- Neither INF, -INF nor NAN.
named :
    (u : Bytes)
    → All IsLow u
    → (u =b codes "INF" ≡ false) × (u =b codes "-INF" ≡ false) × (u =b codes "NAN" ≡ false)
unfolding ◌=b◌
named [] h = (refl, refl, refl)
named (c ∷ []) h = ground arith
named (c ∷ d ∷ u) h = ground arith

module _ (fl : FloatText) where
  parse_float-low : (s : Bytes) → All IsLow s → parse_float fl s ≡ fl.parse s
  unfolding parse_float
  parse_float-low s h =
      let (inf, neg, not_a_number) = named (to_upper s) (to_upper-IsLow s h) in
      rw (inf, neg, not_a_number)

  abbrev ReadsBack : ℕ → Bytes → Type 0
  ReadsBack b t = Lacks b';' t × (parse_float fl t ≡ some (if is_nan b then nan else b))

  finite_text : (b : ℕ) → b < 2 ^ 64 → is_finite b ≡ true → ReadsBack b (fl.format b)
  unfolding is_nan
  finite_text b h fin =
      let digits = low (fl.format b) (fl.format_bytes b fin) in
      (
        low-Lacks (fl.format b) digits,
        parse_float-low (fl.format b) digits ∙ (fl.parse-format b h fin ∙ ground arith),
      )

  float_text-ReadsBack : (b : ℕ) → b < 2 ^ 64 → ReadsBack b (float_text fl b)
  unfolding float_text is_nan parse_float to_upper ◌=b◌
  float_text-ReadsBack b h = elim (Bool-cases (b == pos_inf)) [
    | inl e ↦ let e' : b ≡ pos_inf = ground arith in rw e' ((refl, (refl, (refl, tt))), refl)
    | inr p ↦ elim (Bool-cases (b == neg_inf)) [
      | inl e ↦
          let e' : b ≡ neg_inf = ground arith in rw e' ((refl, (refl, (refl, (refl, tt)))), refl)
      | inr q ↦ elim (Bool-cases (is_nan b)) [
        | inl nan_bits ↦ rw (p, q, nan_bits) ((refl, (refl, (refl, tt))), refl)
        | inr r ↦
            let fin : is_finite b ≡ true = ground arith in
            rw (p, q) (rw r (rw r at (finite_text b h fin)))
      ]
    ]
  ]

  pub read_float-Reads :
      {L : ℕ} (b : ℕ) (i : Bytes)
      → b < 2 ^ 64
      → Reads L (read_float fl) (encode_float fl b ++ i) (float64 (if is_nan b then nan else b)) i
  unfolding read_float encode_float
  read_float-Reads b i h =
      let (lacks, parsed) = float_text-ReadsBack b h in
      Reads-input (simp append_assoc) (
        then-Reads (expect-Reads (codes "d:")) (
          Reads-bind _ (read_until-Reads b';' _ i lacks)
            (then-Reads skip-Reads (Reads-bind _ (or_fail-Reads _ parsed) (keep-Reads _)))))
