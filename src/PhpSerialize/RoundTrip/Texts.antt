-- ===== src/PhpSerialize/RoundTrip/Texts.antt =====
-- What it means that an encoding is read back as a value; the values without parts.
use laravel_queue_go.Prelude.{
  ◌^◌, ℕ, zero, suc, ◌*◌, ◌≤◌, ◌<◌, ◌≡◌, refl, Bool, true, false, ◌∷◌, ◌++◌, length, length-append,
  arith,
}
use laravel_queue_go.Prelude.Bytes.{Bytes, codes}
use laravel_queue_go.Prelude.Int.{ℤ, InInt64}
use laravel_queue_go.Strconv.{format_uint}
use laravel_queue_go.Strconv.RoundTrip.{Lacks}
use laravel_queue_go.PhpSerialize.Floats.{FloatText}
use laravel_queue_go.PhpSerialize.Value.{Value, IntKind, null, bool, int, string, enum}
use laravel_queue_go.PhpSerialize.Encoder.{
  Encoded, write_int, encode_string, encode_enum, encode_float,
}
use laravel_queue_go.PhpSerialize.Decoder.{max_items, read_value}
use laravel_queue_go.PhpSerialize.RoundTrip.Rules.{Reads}
use laravel_queue_go.PhpSerialize.RoundTrip.Scalars.{
  at_byte-Reads, read_int-Reads, read_string_value-Reads, read_enum-Reads, read_null-Reads,
  read_bool-Reads, bool_text,
}
use laravel_queue_go.PhpSerialize.RoundTrip.Floats.{read_float-Reads}
use laravel_queue_go.Prelude.Result.{ok}
use laravel_queue_go.PhpSerialize.Normal.{norm_float}

-- The bounds under which a text is read: the data ends within L bytes, and there is fuel for it.
pub record Fits (L f : ℕ) (s : Bytes) : Type 0 where
  pub small : L ≤ max_items
  pub inside : length s ≤ L
  pub fuel : 2 * length s < f

module _ (fl : FloatText) where
  -- The encoding succeeds, and its text is read back as `w` whatever follows.
  pub record Prints (r : Encoded) (w : Value) : Type 0 where
    pub text : Bytes
    pub encoded : r ≡ ok text
    pub reads :
        (L f : ℕ) (rest : Bytes) → Fits L f text → Reads L (read_value fl f) (text ++ rest) w rest

  -- There is fuel for at least one call.
  pub prints :
      {w : Value} (s : Bytes)
      → ((L f : ℕ) (rest : Bytes)
          → Fits L (suc f) s
          → Reads L (read_value fl (suc f)) (s ++ rest) w rest)
      → Prints (ok s) w
  prints {w} s h = record { text = s; encoded = refl; reads = step }
    where
      step : (L f : ℕ) (rest : Bytes) → Fits L f s → Reads L (read_value fl f) (s ++ rest) w rest
      step L zero rest fits = absurd (omega (arith, fits.fuel))
      step L (suc f) rest fits = h L f rest fits

  pub null-Prints : Prints (ok (codes "N;")) null
  unfolding read_value
  null-Prints = prints (codes "N;") λ L f rest fits. at_byte-Reads _ (read_null-Reads rest)

  pub bool-Prints : (b : Bool) → Prints (ok (bool_text b)) (bool b)
  unfolding read_value
  bool-Prints true =
      prints (bool_text true) λ L f rest fits. at_byte-Reads _ (read_bool-Reads true rest)
  bool-Prints false =
      prints (bool_text false) λ L f rest fits. at_byte-Reads _ (read_bool-Reads false rest)

  pub int-Prints : (z : ℤ) → InInt64 z → Prints (ok (write_int z)) (int IntKind.int64 z)
  unfolding read_value write_int
  int-Prints z h = prints (write_int z) λ L f rest fits. at_byte-Reads _ (read_int-Reads z rest h)

  pub float-Prints : (b : ℕ) → b < 2 ^ 64 → Prints (ok (encode_float fl b)) (norm_float b)
  unfolding read_value encode_float
  float-Prints b h =
      prints (encode_float fl b) λ L f rest fits. at_byte-Reads _ (read_float-Reads fl b rest h)

  pub length-encode_string : (s : Bytes) → length s ≤ length (encode_string s)
  unfolding encode_string
  length-encode_string s = omega (
    arith,
    length-append (format_uint (length s)) (codes ":\"" ++ (s ++ codes "\";")),
    length-append s (codes "\";"),
  )

  pub string-Prints : (s : Bytes) → Prints (ok (encode_string s)) (string s)
  unfolding read_value encode_string
  string-Prints s = prints (encode_string s) λ L f rest fits.
      at_byte-Reads _
        (read_string_value-Reads s rest fits.small (omega (arith, fits, length-encode_string s)))

  length-encode_enum :
      (class case : Bytes) → length (class ++ b':' ∷ case) ≤ length (encode_enum class case)
  unfolding encode_enum
  length-encode_enum class case = omega (
    arith,
    length-append (format_uint (length (class ++ b':' ∷ case)))
        (codes ":\"" ++ ((class ++ b':' ∷ case) ++ codes "\";")),
    length-append (class ++ b':' ∷ case) (codes "\";"),
  )

  pub enum-Prints :
      (class case : Bytes)
      → Lacks b':' case
      → Prints (ok (encode_enum class case)) (enum class case)
  unfolding read_value encode_enum
  enum-Prints class case h = prints (encode_enum class case) λ L f rest fits. at_byte-Reads _ (
      read_enum-Reads class case rest fits.small
        (omega (arith, fits, length-encode_enum class case)) h)
