-- ===== src/PhpSerialize/Tests.antt =====
-- Runs of the encoder and the decoder, and the theorems at concrete inputs.
use laravel_queue_go.Prelude.{◌≡◌, refl, arith, [], ◌∷◌, ◌++◌, some, none}
use laravel_queue_go.Prelude.Bytes.{Bytes, codes, leq_b}
use laravel_queue_go.Prelude.Int.{pos, negsuc}
use laravel_queue_go.Prelude.Result.{ok, panic}
use laravel_queue_go.Strconv.{format_uint, format_int}
use laravel_queue_go.PhpSerialize.Floats.{FloatText}
use laravel_queue_go.PhpSerialize.Value.{
  Value, IntKind, string, int, slice, cons, nil, null, enum, items, of_items, of_fields,
}
use laravel_queue_go.PhpSerialize.Encoder.{
  encode, encode_enum, encode_slice, encode_object, encode_array, encode_string, write_int,
}
use laravel_queue_go.PhpSerialize.Decoder.{decode}
use laravel_queue_go.PhpSerialize.Normal.{norm, RoundTrips}
use laravel_queue_go.PhpSerialize.RoundTrip.{encode_total, decode-encode}
use laravel_queue_go.PhpSerialize.ModelIdentifier.{ModelIdentifier, to_object, as_model_identifier}
use laravel_queue_go.PhpSerialize.ModelIdentifier.RoundTrip.{of_object, model_identifier_roundtrip}
use laravel_queue_go.PhpSerialize.Names.{strip_visibility, parse_property_name}
use laravel_queue_go.PhpSerialize.Names.Agree.{strip_visibility-name}
use laravel_queue_go.PhpSerialize.Panics.{decode-negative_length}
use laravel_queue_go.PhpSerialize.Sample.{sample_floats}

module _ (fl : FloatText) where
  enum_print : encode fl (enum (codes "App\\S") (codes "Hi")) ≡ ok (codes "E:8:\"App\\S:Hi\";")
  unfolding encode encode_enum format_uint
  enum_print = refl

abbrev sample_list : Value
sample_list = slice (cons (int IntKind.int (pos 5)) (cons (string (codes "ab")) (cons null nil)))

abbrev sample_text : Bytes
sample_text = codes "a:3:{i:0;i:5;i:1;s:2:\"ab\";i:2;N;}"

sample_list-RoundTrips : RoundTrips sample_list
unfolding items
sample_list-RoundTrips = (omega arith, ((omega arith, omega arith), (tt, (tt, tt))))

sample_print : encode sample_floats sample_list ≡ ok sample_text
unfolding encode format_uint format_int encode_slice write_int encode_string
sample_print = refl

encode_total_example : (s : Bytes) × (encode sample_floats sample_list ≡ ok s)
encode_total_example = encode_total sample_floats sample_list sample_list-RoundTrips

decode-encode_example : decode sample_floats sample_text ≡ ok (norm sample_list)
decode-encode_example =
    decode-encode sample_floats sample_list sample_text sample_list-RoundTrips sample_print
      (omega arith)

abbrev sample_model : ModelIdentifier
sample_model = record {
  class = codes "U";
  id = int IntKind.int (pos 7);
  relations = codes "p" ∷ [];
  connection = [];
  collection_class = none;
}

abbrev model_head : Bytes
model_head = codes "O:45:\"Illuminate\\Contracts\\Database\\ModelIdentifier\":5:{"

abbrev model_class : Bytes
model_class = codes "s:5:\"class\";s:1:\"U\";s:15:\"collectionClass\";N;"

abbrev model_rest : Bytes
model_rest =
    codes "s:10:\"connection\";s:0:\"\";s:2:\"id\";i:7;s:9:\"relations\";a:1:{i:0;s:1:\"p\";}}"

abbrev model_text : Bytes
model_text = model_head ++ (model_class ++ model_rest)

model_print : encode sample_floats (of_object (to_object sample_model)) ≡ ok model_text
unfolding encode to_object format_uint format_int encode_object of_fields leq_b encode_array items
    of_items encode_string write_int
model_print = refl

model_identifier_roundtrip_example :
    (w : Value) × (decode sample_floats model_text ≡ ok w)
    × (as_model_identifier w ≡ some (record sample_model { id = norm (int IntKind.int (pos 7)) }))
model_identifier_roundtrip_example =
    model_identifier_roundtrip sample_floats sample_model model_text (omega arith, omega arith)
      (omega arith) model_print (omega arith)

decode-negative_length_example :
    (decode sample_floats (codes "s:" ++ (format_int (negsuc 4) ++ (codes ":\"" ++ codes "ab\";")))
      ≡ panic)
    × (decode sample_floats (codes "a:" ++ (format_int (negsuc 4) ++ (codes ":{" ++ codes "ab\";")))
        ≡ panic)
decode-negative_length_example =
    decode-negative_length sample_floats 4 (codes "ab\";") (omega arith)

strip_visibility-name_example :
    strip_visibility (0 ∷ b'*' ∷ 0 ∷ b'q' ∷ [])
    ≡ (parse_property_name (0 ∷ b'*' ∷ 0 ∷ b'q' ∷ [])).name
strip_visibility-name_example = strip_visibility-name (0 ∷ b'*' ∷ 0 ∷ b'q' ∷ [])
