-- ===== src/Queue/Tests/Dispatch.antt =====
-- A command with one argument, from the dispatcher to the worker.
use laravel_queue_go.Prelude.{◌≡◌, refl, subst, arith, some, none, [], ◌∷◌}
use laravel_queue_go.Prelude.Bytes.{Bytes, codes, ◌=b◌}
use laravel_queue_go.Prelude.Dict.{Dict, lookup}
use laravel_queue_go.Prelude.Result.{ok}
use laravel_queue_go.Strconv.{format_uint}
use laravel_queue_go.PhpSerialize.Encoder.{
  encode, encode_object, encode_string, marshal_object, sort_keys,
}
use laravel_queue_go.PhpSerialize.Names.{strip_visibility}
use laravel_queue_go.PhpSerialize.Normal.{RoundTrips, norm_fields}
use laravel_queue_go.PhpSerialize.Sample.{sample_floats}
use laravel_queue_go.PhpSerialize.Value.{Value, string, object, fields, of_fields}
use laravel_queue_go.Queue.Dispatcher.{marshal_command, marshal_command_json, present}
use laravel_queue_go.Queue.Dispatcher.JsonCommand.{
  command_key, command_map, KeepsTexts, decode_command-marshal_json,
}
use laravel_queue_go.Queue.Json.{Json}
use laravel_queue_go.Queue.Dispatcher.Command.{decode_command-marshal}
use laravel_queue_go.Queue.Job.{format_php, format_json, decode_command}
use laravel_queue_go.Queue.Sample.{sample_json}

abbrev sample_class : Bytes
sample_class = codes "App\\Jobs\\Send"

abbrev sample_args : Dict Value
sample_args = (codes "to", string (codes "a")) ∷ []

abbrev sample_command : Bytes
sample_command = codes "O:13:\"App\\Jobs\\Send\":1:{s:2:\"to\";s:1:\"a\";}"

sample_args-RoundTrips : RoundTrips (object sample_class (of_fields sample_args))
unfolding of_fields fields strip_visibility
sample_args-RoundTrips = ((tt, tt), (refl, tt), (tt, tt))

sample_command-printed :
    marshal_command sample_floats sample_json format_php sample_class sample_args
    ≡ ok sample_command
unfolding marshal_command marshal_object encode encode_object encode_string format_uint of_fields
sample_command-printed = refl

decode_command-marshal_example :
    decode_command sample_floats sample_json sample_command
    ≡ ok (
      some (record {
        class_name = sample_class;
        properties = sort_keys (norm_fields (of_fields sample_args));
      }),
      format_php,
    )
decode_command-marshal_example =
    decode_command-marshal sample_floats sample_json sample_class sample_args sample_command
      sample_args-RoundTrips sample_command-printed (omega arith)

abbrev json_text : Bytes
json_text = codes "{\"commandName\":\"App\\\\Jobs\\\\Send\",\"to\":\"a\"}"

abbrev json_map : Dict Value
json_map = command_map sample_class sample_args

-- An encoding/json that knows one map.
abbrev one_map_json : Json
one_map_json = record sample_json {
  marshal_map = λ m. some json_text;
  unmarshal_map = λ b. some json_map;
}

json_text-marshalled :
    marshal_command sample_floats one_map_json format_json sample_class sample_args ≡ ok json_text
unfolding marshal_command marshal_command_json present
json_text-marshalled = refl

json_text-KeepsTexts : (d : Bytes) → some json_text ≡ some d → KeepsTexts one_map_json json_map d
json_text-KeepsTexts d e =
    let same : json_text ≡ d = cc e in
    subst (KeepsTexts one_map_json json_map) same (record {
      rest = codes "\"commandName\":\"App\\\\Jobs\\\\Send\",\"to\":\"a\"}";
      begins = refl;
      read = json_map;
      unmarshalled = refl;
      texts = λ k s h. h;
    })

sample_argument :
    lookup (codes "to") ((command_key, string sample_class) ∷ sample_args)
    ≡ some (string (codes "a"))
unfolding lookup ◌=b◌
sample_argument = refl

no_command_name : lookup command_key sample_args ≡ none
unfolding lookup ◌=b◌
no_command_name = refl

decode_command-marshal_json_example :
    (m : Dict Value) × (decode_command sample_floats one_map_json json_text
      ≡ ok (some (record { class_name = sample_class; properties = m }), format_json))
    × (lookup (codes "to") m ≡ some (string (codes "a")))
decode_command-marshal_json_example =
    decode_command-marshal_json sample_floats one_map_json sample_class sample_args json_text
      (codes "to") (codes "a") (tt, tt) no_command_name json_text-marshalled json_text-KeepsTexts
      sample_argument
