-- ===== src/Queue/Dispatcher/JsonCommand.antt =====
-- The command that a dispatcher writes in JSON, read by the worker that pops it: marshalCommandJSON of
-- pkg/queue/dispatcher.go and decodeCommand of pkg/queue/job.go.
use laravel_queue_go.Prelude.{
  ◌≡◌, refl, ap, ◌∙◌, subst, Option, none, some, [], ◌∷◌, Bool-cases, inl, inr,
}
use laravel_queue_go.Prelude.Bytes.{Bytes, codes, ◌=b◌, eq_iff, =b-refl}
use laravel_queue_go.Prelude.Dict.{Dict, lookup, put, lookup-put, Absent, Distinct}
use laravel_queue_go.Prelude.Result.{ok}
use laravel_queue_go.PhpSerialize.Floats.{FloatText}
use laravel_queue_go.PhpSerialize.Value.{Value, string}
use laravel_queue_go.Queue.Dispatcher.{
  marshal_command, marshal_command_json, put_all, present, serialize_error,
}
use laravel_queue_go.Queue.Job.{
  format_json, decode_command, decode_command_json, json_object, string_from_any,
}
use laravel_queue_go.Queue.Json.{Json}

abbrev pub command_key : Bytes
command_key = codes "commandName"

module _ {V : Type 0} where
  Absent-lookup : (k : Bytes) (m : Dict V) → Absent k m → lookup k m ≡ none
  unfolding lookup
  Absent-lookup k [] h = refl
  Absent-lookup k ((j, v) ∷ m) (h, hs) = rw h (Absent-lookup k m hs)

-- An argument that is not given keeps what was there.
lookup-put_all-none :
    (k : Bytes) (args m : Dict Value)
    → lookup k args ≡ none
    → lookup k (put_all args m) ≡ lookup k m
unfolding put_all lookup
lookup-put_all-none k [] m h = refl
lookup-put_all-none k ((j, v) ∷ args) m h = elim (Bool-cases (j =b k)) [
  | inl e ↦ let g : some v ≡ none = rw e at h in cc g
  | inr e ↦
      let g : lookup k args ≡ none = rw e at h in
      lookup-put_all-none k args (put j v m) g ∙ lookup-put j k v m ∙ (rw e refl)
]

lookup-put_all-some :
    (k : Bytes) (x : Value) (args m : Dict Value)
    → Distinct args
    → lookup k args ≡ some x
    → lookup k (put_all args m) ≡ some x
unfolding put_all lookup
lookup-put_all-some k x [] m d h = cc h
lookup-put_all-some k x ((j, v) ∷ args) m (absent, d) h = elim (Bool-cases (j =b k)) [
  | inl e ↦
      let g : some v ≡ some x = rw e at h in
      let same : j ≡ k = (eq_iff j k).0 e in
      lookup-put_all-none k args (put j v m)
        (subst (λ i. lookup i args ≡ none) same (Absent-lookup j args absent))
      ∙ lookup-put j k v m
      ∙ (rw e g)
  | inr e ↦
      let g : lookup k args ≡ some x = rw e at h in lookup-put_all-some k x args (put j v m) d g
]

-- The map that is marshalled: the class under `commandName`, unless an argument has this name.
abbrev pub command_map : Bytes → Dict Value → Dict Value
command_map class args = put_all args ((command_key, string class) ∷ [])

-- What encoding/json keeps of a map of texts in UTF-8: it is written as an object, and read as a map
-- with the same text under each key that has one.
pub record KeepsTexts (json : Json) (m : Dict Value) (c : Bytes) : Type 0 where
  pub rest : Bytes
  pub begins : c ≡ b'{' ∷ rest
  pub read : Dict Value
  pub unmarshalled : json.unmarshal_map c ≡ some read
  pub texts : (k s : Bytes) → lookup k m ≡ some (string s) → lookup k read ≡ some (string s)

command_map-class :
    (class : Bytes) (args : Dict Value)
    → lookup command_key args ≡ none
    → lookup command_key (command_map class args) ≡ some (string class)
unfolding lookup
command_map-class class args free =
    lookup-put_all-none command_key args _ free ∙ (rw (=b-refl command_key) refl)

command_map-text :
    (class : Bytes) (args : Dict Value) (k : Bytes) (x : Value)
    → Distinct args
    → lookup command_key args ≡ none
    → lookup k ((command_key, string class) ∷ args) ≡ some x
    → lookup k (command_map class args) ≡ some x
unfolding lookup
command_map-text class args k x d free h = elim (Bool-cases (command_key =b k)) [
  | inl e ↦
      let g : some (string class) ≡ some x = rw e at h in
      subst (λ i. lookup i (command_map class args) ≡ some x) ((eq_iff command_key k).0 e)
        (command_map-class class args free ∙ g)
  | inr e ↦
      let g : lookup k args ≡ some x = rw e at h in
      lookup-put_all-some k x args ((command_key, string class) ∷ []) d g
]

marshalled : (o : Option Bytes) (c : Bytes) → present serialize_error o ≡ ok c → o ≡ some c
unfolding present
marshalled none c h = cc h
marshalled (some b) c h = cc h

module _ (fl : FloatText) (json : Json) where
  json_object-class :
      (m : Dict Value) (class : Bytes)
      → lookup command_key m ≡ some (string class)
      → json_object (some m) ≡ (some (record { class_name = class; properties = m }), format_json)
  unfolding json_object string_from_any lookup
  json_object-class [] class h = cc h
  json_object-class (e ∷ m) class h = rw h refl

  read_json :
      (rest c : Bytes) (m : Dict Value) (class : Bytes)
      → c ≡ b'{' ∷ rest
      → json.unmarshal_map c ≡ some m
      → lookup command_key m ≡ some (string class)
      → decode_command fl json c
        ≡ ok (some (record { class_name = class; properties = m }), format_json)
  unfolding decode_command decode_command_json
  read_json rest c m class e u h = rw e (
      let found : json.unmarshal_map (b'{' ∷ rest) ≡ some m = rw e at u in
      rw found (ap ok (json_object-class m class h)))

  -- The command that a dispatcher writes in JSON for a class and arguments with distinct names, none
  -- of them `commandName`, where encoding/json keeps the texts of the map that it marshals, is read
  -- by a worker as a command in that format for the same class, with each argument that is a text.
  pub decode_command-marshal_json :
      (class : Bytes) (args : Dict Value) (c k s : Bytes)
      → Distinct args
      → lookup command_key args ≡ none
      → marshal_command fl json format_json class args ≡ ok c
      → ((d : Bytes)
          → json.marshal_map (command_map class args) ≡ some d
          → KeepsTexts json (command_map class args) d)
      → lookup k ((command_key, string class) ∷ args) ≡ some (string s)
      → (m : Dict Value) × (decode_command fl json c
          ≡ ok (some (record { class_name = class; properties = m }), format_json))
        × (lookup k m ≡ some (string s))
  unfolding marshal_command marshal_command_json
  decode_command-marshal_json class args c k s d free e keeps h =
      let t = keeps c (marshalled (json.marshal_map (command_map class args)) c e) in
      (
        t.read,
        read_json t.rest c t.read class t.begins t.unmarshalled
            (t.texts command_key class (command_map-class class args free)),
        t.texts k s (command_map-text class args k (string s) d free h),
      )
