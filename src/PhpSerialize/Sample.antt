-- ===== src/PhpSerialize/Sample.antt =====
-- An instance of the interface for the text of floats, for runs: the bit pattern in decimal.
use laravel_queue_go.Prelude.{◌≡◌, ◌⊎◌, inl, [], ◌∷◌, All}
use laravel_queue_go.Prelude.Bytes.{Bytes}
use laravel_queue_go.Strconv.{format_uint, parse_uint}
use laravel_queue_go.Strconv.RoundTrip.{IsDigit, format_uint-IsDigit, parse_uint-format}
use laravel_queue_go.PhpSerialize.Floats.{FloatText}

pub only_digits : (s : Bytes) → All IsDigit s → All (λ c. IsDigit c ⊎ ((c ≡ b'.') ⊎ (c ≡ b'-'))) s
only_digits [] h = tt
only_digits (c ∷ s) (h, hs) = (inl h, only_digits s hs)

abbrev pub sample_floats : FloatText
sample_floats = record {
  format = format_uint;
  parse = parse_uint;
  parse-format = λ b _ _. parse_uint-format b;
  format_bytes = λ b _. only_digits (format_uint b) (format_uint-IsDigit b);
}
