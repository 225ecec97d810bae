-- ===== src/PhpSerialize/Encoder.antt =====
-- pkg/phpserialize/encoder.go. The builder that the functions write to is the text that they return;
-- Go discards what was written when a call fails.
use laravel_queue_go.Prelude.{
  ℕ, ◌+◌, true, false, List, [], ◌∷◌, ◌++◌, map, length, ◌==◌, if◌then◌else◌,
}
use laravel_queue_go.Prelude.Bytes.{Bytes, codes, leq_b}
use laravel_queue_go.Prelude.Dict.{Dict, put}
use laravel_queue_go.Prelude.Int.{ℤ, pos}
use laravel_queue_go.Prelude.Result.{Result, ok, err, panic, bind}
use laravel_queue_go.Strconv.{format_uint, format_int}
use laravel_queue_go.PhpSerialize.Floats.{FloatText, pos_inf, neg_inf, is_nan, widen}
use laravel_queue_go.PhpSerialize.Value.{
  Value, Items, Fields, IntKind, null, bool, int, uint, float32, float64, string, slice, strings,
  ints, dict, object, array, enum, typed_slice, typed_map, json_number, back_ref, other, nil, cons,
  end, field, items, of_fields,
}

pub data EncodeError : Type 0 where
  unsupported_type unsupported_key : EncodeError

abbrev pub Encoded : Type 0
Encoded = Result EncodeError Bytes

unfoldable pub write_int : ℤ → Bytes
write_int z = codes "i:" ++ (format_int z ++ b';' ∷ [])

unfoldable pub write_uint : ℕ → Bytes
write_uint n = codes "i:" ++ (format_uint n ++ b';' ∷ [])

-- `s:LEN:"TEXT";`
unfoldable pub encode_string : Bytes → Bytes
encode_string s = codes "s:" ++ (format_uint (length s) ++ (codes ":\"" ++ (s ++ codes "\";")))

unfoldable pub encode_enum : Bytes → Bytes → Bytes
encode_enum class case =
    let val = class ++ b':' ∷ case in
    codes "E:" ++ (format_uint (length val) ++ (codes ":\"" ++ (val ++ codes "\";")))

unfoldable pub float_text : FloatText → ℕ → Bytes
float_text fl b =
    if b == pos_inf
    then codes "INF"
    else if b == neg_inf
    then codes "-INF"
    else if is_nan b
    then codes "NAN"
    else fl.format b

unfoldable pub encode_float : FloatText → ℕ → Bytes
unfolding float_text
encode_float fl b = codes "d:" ++ (float_text fl b ++ b';' ∷ [])

-- sort.Strings on the keys of a map, each with its value.
module _ {ℓ} {A : Type ℓ} where
  unfoldable pub insert_key : Bytes × A → Dict A → Dict A
  insert_key e [] = e ∷ []
  insert_key (k, v) ((j, w) ∷ m) =
      if leq_b k j then (k, v) ∷ (j, w) ∷ m else (j, w) ∷ insert_key (k, v) m

  unfoldable pub sort_keys : Dict A → Dict A
  unfolding insert_key
  sort_keys [] = []
  sort_keys (e ∷ m) = insert_key e (sort_keys m)

-- `TAG:COUNT:{BODY}` for the text that the items come to.
unfoldable pub braces : ℕ → Bytes → Bytes
braces n body = format_uint n ++ (codes ":{" ++ (body ++ b'}' ∷ []))

unfoldable pub join_slice : ℕ → List Encoded → Encoded
join_slice i [] = ok []
join_slice i (r ∷ rs) =
    bind r λ b. bind (join_slice (i + 1) rs) λ rest. ok (write_int (pos i) ++ (b ++ rest))

unfoldable pub encode_slice : List Encoded → Encoded
unfolding join_slice braces
encode_slice rs = bind (join_slice 0 rs) λ body. ok (codes "a:" ++ braces (length rs) body)

unfoldable pub join_properties : Dict Encoded → Encoded
join_properties [] = ok []
join_properties ((k, r) ∷ rs) =
    bind r λ b. bind (join_properties rs) λ rest. ok (encode_string k ++ (b ++ rest))

unfoldable pub encode_sorted_properties : Dict Encoded → Encoded
unfolding join_properties sort_keys
encode_sorted_properties rs = join_properties (sort_keys rs)

unfoldable pub encode_map : Dict Encoded → Encoded
unfolding encode_sorted_properties braces
encode_map rs =
    bind (encode_sorted_properties rs) λ body. ok (codes "a:" ++ braces (length rs) body)

unfoldable pub encode_object : Bytes → Dict Encoded → Encoded
unfolding encode_sorted_properties braces
encode_object class rs = bind (encode_sorted_properties rs) λ body. ok (
    codes "O:"
    ++ (format_uint (length class)
        ++ (codes ":\"" ++ (class ++ (codes "\":" ++ braces (length rs) body)))))

unfoldable pub encode_key : Value → Encoded
encode_key (int IntKind.int64 z) = ok (write_int z)
encode_key (string s) = ok (encode_string s)
encode_key _ = err unsupported_key

-- `arr.Values[i]` panics where there are more keys than values.
unfoldable pub join_array : List Value → List Encoded → Encoded
unfolding encode_key
join_array [] rs = ok []
join_array (k ∷ ks) [] = bind (encode_key k) λ _. panic
join_array (k ∷ ks) (r ∷ rs) =
    bind (encode_key k) λ key. bind r λ b. bind (join_array ks rs) λ rest. ok (key ++ (b ++ rest))

unfoldable pub encode_array : List Value → List Encoded → Encoded
unfolding join_array braces
encode_array ks rs = bind (join_array ks rs) λ body. ok (codes "a:" ++ braces (length ks) body)

-- The map that reflection builds from printed keys: of two keys printed alike one stays.
unfoldable pub collect : Dict Encoded → Dict Encoded → Dict Encoded
collect m [] = m
collect m ((k, r) ∷ rs) = collect (put k r m) rs

module _ (fl : FloatText) where
  -- encodeValue. A cyclic value overflows the stack.
  unfoldable mutual
    pub encode : Value → Encoded
    encode null = ok (codes "N;")
    encode (bool true) = ok (codes "b:1;")
    encode (bool false) = ok (codes "b:0;")
    encode (int k z) = ok (write_int z)
    encode (uint k n) = ok (write_uint n)
    encode (float32 b) = ok (encode_float fl (widen b))
    encode (float64 b) = ok (encode_float fl b)
    encode (string s) = ok (encode_string s)
    encode (slice vs) = encode_slice (encode_items vs)
    encode (strings ss) = encode_slice (map (λ s. ok (encode_string s)) ss)
    encode (ints zs) = encode_slice (map (λ z. ok (write_int z)) zs)
    encode (dict fs) = encode_map (encode_fields fs)
    encode (object class fs) = encode_object class (encode_fields fs)
    encode (array ks vs) = encode_array (items ks) (encode_items vs)
    encode (enum class case) = ok (encode_enum class case)
    encode (typed_slice vs) = encode_slice (encode_items vs)
    encode (typed_map fs) = encode_map (collect [] (encode_fields fs))
    encode (back_ref n) = panic
    encode (json_number s) = err unsupported_type
    encode other = err unsupported_type

    pub encode_items : Items → List Encoded
    encode_items nil = []
    encode_items (cons v vs) = encode v ∷ encode_items vs

    pub encode_fields : Fields → Dict Encoded
    encode_fields end = []
    encode_fields (field k v fs) = (k, encode v) ∷ encode_fields fs

-- MarshalObject.
unfoldable pub marshal_object : FloatText → Bytes → Dict Value → Encoded
marshal_object fl class properties = encode fl (object class (of_fields properties))
