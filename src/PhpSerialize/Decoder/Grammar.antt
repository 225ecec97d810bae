-- ===== src/PhpSerialize/Decoder/Grammar.antt =====
-- readValue and the functions that it calls. Each call of readValue takes one unit of fuel, and so
-- does each round of the loops in readArray and readObject.
use laravel_queue_go.Prelude.{
  ℕ, zero, suc, ◌+◌, ◌*◌, Option, some, List, [], ◌∷◌, map, length, ◌==◌, ◌-◌, leb, ◌&&◌, ◌||◌,
  if◌then◌else◌,
}
use laravel_queue_go.Prelude.Bytes.{Bytes, codes, ◌=b◌}
use laravel_queue_go.Prelude.Dict.{Dict, put}
use laravel_queue_go.Prelude.Result.{Result, ok, err, out_of_fuel, bind}
use laravel_queue_go.Strconv.{parse_int}
use laravel_queue_go.PhpSerialize.Floats.{FloatText, pos_inf, neg_inf, nan}
use laravel_queue_go.PhpSerialize.Names.{split_last, strip_visibility}
use laravel_queue_go.PhpSerialize.Value.{
  Value, IntKind, null, bool, int, float64, string, object, array, enum, of_items, of_fields, end,
}
use laravel_queue_go.PhpSerialize.Decoder.Reads.{
  DecodeError, unexpected_end, invalid_int, invalid_float, invalid_reference, missing_colon,
  unknown_type, unexpected_key_type, Read, ◌>>=◌, ◌>>◌, pure, fail, or_fail, expect, read_until,
  skip, read_length, take_text, remember, open_slot, close_slot, make_slice, rounds, deref,
}

unfoldable pub read_null : Read Value
read_null = do expect (codes "N;"); remember null; pure null

-- d.data[d.pos] with `d.pos++`.
unfoldable pub read_byte : Read ℕ
read_byte st = elim st.rest [
  | [] ↦ err unexpected_end
  | c ∷ s ↦ ok (c, record st { rest = s; pos = st.pos + 1 })
]

unfoldable pub read_bool : Read Value
unfolding read_byte
read_bool = do
  expect (codes "b:")
  c ← read_byte
  expect (codes ";")
  remember (bool (c == b'1'))
  pure (bool (c == b'1'))

unfoldable pub read_int : Read Value
unfolding or_fail
read_int = do
  expect (codes "i:")
  text ← read_until b';'
  skip
  z ← or_fail (parse_int text) invalid_int
  remember (int IntKind.int64 z)
  pure (int IntKind.int64 z)

-- strings.ToUpper, as far as it can make one of the names below: the ASCII letters, and the
-- dotless i, the two bytes 0xc4 0xb1, which becomes I.
unfoldable pub to_upper : Bytes → Bytes
to_upper [] = []
to_upper (c ∷ []) = (if leb b'a' c && leb c b'z' then c - 32 else c) ∷ []
to_upper (c ∷ d ∷ s) =
    let here = (if leb b'a' c && leb c b'z' then c - 32 else c) ∷ to_upper (d ∷ s) in
    let dotless = b'I' ∷ to_upper s in if c == 0xc4 && d == 0xb1 then dotless else here

unfoldable pub parse_float : FloatText → Bytes → Option ℕ
unfolding to_upper
parse_float fl text =
    if to_upper text =b codes "INF"
    then some pos_inf
    else if to_upper text =b codes "-INF"
    then some neg_inf
    else if to_upper text =b codes "NAN"
    then some nan
    else fl.parse text

unfoldable pub read_float : FloatText → Read Value
unfolding parse_float or_fail
read_float fl = do
  expect (codes "d:")
  text ← read_until b';'
  skip
  b ← or_fail (parse_float fl text) invalid_float
  remember (float64 b)
  pure (float64 b)

unfoldable pub read_string : Read Bytes
read_string = do
  expect (codes "s:")
  n ← read_length
  expect (codes ":\"")
  text ← take_text n
  expect (codes "\";")
  remember (string text)
  pure text

unfoldable pub read_string_value : Read Value
unfolding read_string
read_string_value = do text ← read_string; pure (string text)

unfoldable pub read_reference : Read Value
unfolding or_fail
read_reference = do
  skip
  expect (codes ":")
  text ← read_until b';'
  skip
  i ← or_fail (parse_int text) invalid_reference
  deref i

-- The class and the data of a custom object are skipped, and it has no properties.
unfoldable pub read_custom_object : Read Value
read_custom_object = do
  expect (codes "C:")
  n ← read_length
  expect (codes ":\"")
  class ← take_text n
  expect (codes "\":")
  m ← read_length
  expect (codes ":{")
  take_text m
  expect (codes "}")
  remember (object class end)
  pure (object class end)

unfoldable pub read_enum : Read Value
unfolding or_fail
read_enum = do
  expect (codes "E:")
  n ← read_length
  expect (codes ":\"")
  val ← take_text n
  expect (codes "\";")
  (class, case) ← or_fail (split_last b':' val) missing_colon
  remember (enum class case)
  pure (enum class case)

-- The switches on `d.data[d.pos]`.
pub data Tag : Type 0 where
  null_tag bool_tag int_tag float_tag string_tag array_tag object_tag reference_tag custom_tag
        enum_tag unknown_tag :
      Tag

unfoldable pub tag : ℕ → Tag
tag c =
    if c == b'N'
    then null_tag
    else if c == b'b'
    then bool_tag
    else if c == b'i'
    then int_tag
    else if c == b'd'
    then float_tag
    else if c == b's'
    then string_tag
    else if c == b'a'
    then array_tag
    else if c == b'O'
    then object_tag
    else if c == b'r' || c == b'R'
    then reference_tag
    else if c == b'C'
    then custom_tag
    else if c == b'E'
    then enum_tag
    else unknown_tag

unfoldable pub key_at : ℕ → Read Value
key_at c = elim (tag c) [
  | int_tag ↦ read_int
  | string_tag ↦ read_string_value
  | _ ↦ fail (unexpected_key_type c)
]

-- `if d.pos >= len(d.data) { return error }`, then the switch on d.data[d.pos].
unfoldable pub at_byte : (ℕ → Read Value) → Read Value
at_byte switch st = elim st.rest [ [] ↦ err unexpected_end | c ∷ s ↦ switch c st ]

unfoldable pub read_array_key : Read Value
unfolding at_byte key_at tag
read_array_key = at_byte key_at

-- `loop n` reads n entries of the array.
unfoldable pub read_array : (ℕ → Read (List (Value × Value))) → Read Value
read_array loop = do
  expect (codes "a:")
  count ← read_length
  expect (codes ":{")
  n ← make_slice count
  slot ← open_slot
  entries ← loop n
  expect (codes "}")
  close_slot slot (array (of_items (map (λ e. e.0) entries)) (of_items (map (λ e. e.1) entries)))

-- `loop n` reads n properties of the object.
unfoldable pub read_object : (ℕ → Read (Dict Value)) → Read Value
read_object loop = do
  expect (codes "O:")
  n ← read_length
  expect (codes ":\"")
  class ← take_text n
  expect (codes "\":")
  count ← read_length
  expect (codes ":{")
  slot ← open_slot
  properties ← loop (rounds count)
  expect (codes "}")
  close_slot slot (object class (of_fields properties))

abbrev pub starve {ℓ} : {A : Type ℓ} → Read A
starve st = out_of_fuel

module _ (fl : FloatText) where
  -- The switch of readValue, for the loops of the two containers.
  unfoldable pub read_tagged :
      (ℕ → Read (List (Value × Value))) → (ℕ → Read (Dict Value)) → Tag → ℕ → Read Value
  read_tagged entries properties null_tag c = read_null
  read_tagged entries properties bool_tag c = read_bool
  read_tagged entries properties int_tag c = read_int
  read_tagged entries properties float_tag c = read_float fl
  read_tagged entries properties string_tag c = read_string_value
  read_tagged entries properties array_tag c = read_array entries
  read_tagged entries properties object_tag c = read_object properties
  read_tagged entries properties reference_tag c = read_reference
  read_tagged entries properties custom_tag c = read_custom_object
  read_tagged entries properties enum_tag c = read_enum
  read_tagged entries properties unknown_tag c = fail (unknown_type c)

  unfoldable mutual
    unfolding at_byte read_tagged tag

    pub read_value : ℕ → Read Value
    read_value zero = starve
    read_value (suc f) =
        at_byte λ c. read_tagged (λ n. read_entries f n) (λ n. read_properties f n []) (tag c) c

    pub read_entries : ℕ → ℕ → Read (List (Value × Value))
    read_entries zero n = starve
    read_entries (suc f) zero = pure []
    read_entries (suc f) (suc n) = do
      key ← read_array_key
      v ← read_value f
      rest ← read_entries f n
      pure ((key, v) ∷ rest)

    -- A key that comes again replaces the earlier value.
    pub read_properties : ℕ → ℕ → Dict Value → Read (Dict Value)
    read_properties zero n m = starve
    read_properties (suc f) zero m = pure m
    read_properties (suc f) (suc n) m = do
      key ← read_string
      v ← read_value f
      read_properties f n (put (strip_visibility key) v m)

  unfoldable pub decode_fuel : ℕ → Bytes → Result DecodeError Value
  decode_fuel f s = bind (read_value f (record { rest = s; pos = 0; refs = [] })) λ (v, st). ok v

  -- Decode. What stands behind the value is ignored.
  unfoldable pub decode : Bytes → Result DecodeError Value
  unfolding decode_fuel
  decode s = decode_fuel (2 * length s + 1) s
