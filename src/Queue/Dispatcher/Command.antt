-- ===== src/Queue/Dispatcher/Command.antt =====
-- The command that a dispatcher writes, read by the worker that pops it: marshalCommand of
-- pkg/queue/dispatcher.go and decodeCommand of pkg/queue/job.go.
use laravel_queue_go.Prelude.{◌≡◌, ◌≤◌, ap, some, ◌∷◌, length}
use laravel_queue_go.Prelude.Bytes.{Bytes}
use laravel_queue_go.Prelude.Dict.{Dict}
use laravel_queue_go.Prelude.Result.{ok, err, panic, out_of_fuel, bind}
use laravel_queue_go.PhpSerialize.Floats.{FloatText}
use laravel_queue_go.PhpSerialize.Value.{Value, object, of_fields, fields-of_fields}
use laravel_queue_go.PhpSerialize.Decoder.{decode, max_items}
use laravel_queue_go.PhpSerialize.Encoder.{
  Encoded, encode, encode_object, marshal_object, sort_keys,
}
use laravel_queue_go.PhpSerialize.Normal.{norm, norm_fields, RoundTrips}
use laravel_queue_go.PhpSerialize.RoundTrip.{decode-encode}
use laravel_queue_go.Queue.Dispatcher.{DispatchError, serialize_error, wrap, marshal_command}
use laravel_queue_go.Queue.Job.{format_php, decode_command, php_or_json}
use laravel_queue_go.Queue.Json.{Json}

unwrap : (e : DispatchError) (r : Encoded) (s : Bytes) → wrap e r ≡ ok s → r ≡ ok s
unfolding wrap
unwrap e (ok a) s h = cc
unwrap e (err x) s h = cc
unwrap e panic s h = cc
unwrap e out_of_fuel s h = cc

-- The text of an object begins with its letter.
begins_with_o :
    (r : Encoded) (f : Bytes → Bytes) (s : Bytes)
    → bind r (λ body. ok (b'O' ∷ f body)) ≡ ok s
    → (t : Bytes) × (s ≡ b'O' ∷ t)
begins_with_o (ok body) f s h = (f body, cc)
begins_with_o (err x) f s h = cc
begins_with_o panic f s h = cc
begins_with_o out_of_fuel f s h = cc

module _ (fl : FloatText) (json : Json) where
  read_php :
      (s t : Bytes) (class : Bytes) (m : Dict Value)
      → s ≡ b'O' ∷ t
      → decode fl s ≡ ok (object class (of_fields m))
      → decode_command fl json s
        ≡ ok (some (record { class_name = class; properties = m }), format_php)
  unfolding decode_command php_or_json
  read_php s t class m e h = rw e (
      let found : decode fl (b'O' ∷ t) ≡ ok (object class (of_fields m)) = rw e at h in
      rw found (
        ap (λ ps. ok (some (record { class_name = class; properties = ps }), format_php))
          (fields-of_fields m)))

  begins :
      (class : Bytes) (m : Dict Value) (s : Bytes)
      → encode fl (object class (of_fields m)) ≡ ok s
      → (t : Bytes) × (s ≡ b'O' ∷ t)
  unfolding encode encode_object
  begins class m s h = begins_with_o _ _ s h

  -- The command that a dispatcher writes in PHP's format for a class and arguments of those that
  -- `RoundTrips` allows, no longer than `max_items`, is read by a worker as a command in that format
  -- for the same class with the same arguments, sorted by name and each in its normal form.
  pub decode_command-marshal :
      (class : Bytes) (args : Dict Value) (s : Bytes)
      → RoundTrips (object class (of_fields args))
      → marshal_command fl json format_php class args ≡ ok s
      → length s ≤ max_items
      → decode_command fl json s
        ≡ ok (
          some (record {
            class_name = class;
            properties = sort_keys (norm_fields (of_fields args));
          }),
          format_php,
        )
  unfolding marshal_command marshal_object
  decode_command-marshal class args s h e small =
      let printed : encode fl (object class (of_fields args)) ≡ ok s =
        unwrap serialize_error _ s e in
      let (t, o) = begins class args s printed in
      read_php s t class (sort_keys (norm_fields (of_fields args))) o
        (unfold norm in decode-encode fl _ s h printed small)
