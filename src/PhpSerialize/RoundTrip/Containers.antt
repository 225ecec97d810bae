-- ===== src/PhpSerialize/RoundTrip/Containers.antt =====
-- The texts of arrays and objects, read again.
use laravel_queue_go.Prelude.{
  ℕ, ◌+◌, ◌≤◌, ◌≡◌, List, [], ◌∷◌, ◌++◌, length, append_assoc, length-append, arith,
}
use laravel_queue_go.Prelude.Bytes.{Bytes, codes}
use laravel_queue_go.Prelude.Dict.{Dict}
use laravel_queue_go.Strconv.{format_uint}
use laravel_queue_go.PhpSerialize.Floats.{FloatText}
use laravel_queue_go.PhpSerialize.Value.{Value, of_fields, object}
use laravel_queue_go.PhpSerialize.Encoder.{Encoded, braces}
use laravel_queue_go.PhpSerialize.Decoder.{max_items, read_array, read_object, read_value}
use laravel_queue_go.PhpSerialize.RoundTrip.Rules.{
  Reads-bind, Reads-input, expect-Reads, take_text-Reads, read_length-Reads, make_slice-Reads,
  open_slot-Reads, close_slot-Reads,
}
use laravel_queue_go.PhpSerialize.RoundTrip.Scalars.{then-Reads, at_byte-Reads}
use laravel_queue_go.Prelude.Result.{ok, bind}
use laravel_queue_go.PhpSerialize.RoundTrip.Texts.{Fits, Prints}
use laravel_queue_go.PhpSerialize.Normal.{of_entries}
use laravel_queue_go.PhpSerialize.RoundTrip.Loops.{Loops}
use laravel_queue_go.PhpSerialize.RoundTrip.Properties.{PropertyLoops, AllAbsent-nil}
use laravel_queue_go.PhpSerialize.RoundTrip.Texts.{prints}

length-braces : (n : ℕ) (body : Bytes) → 3 + length body ≤ length (braces n body)
unfolding braces
length-braces n body = omega (
  arith,
  length-append (format_uint n) (codes ":{" ++ (body ++ b'}' ∷ [])),
  length-append body (b'}' ∷ []),
)

array_text-append :
    (n : ℕ) (body rest : Bytes)
    → (codes "a:" ++ braces n body) ++ rest
      ≡ codes "a:" ++ (format_uint n ++ (codes ":{" ++ (body ++ (codes "}" ++ rest))))
unfolding braces
array_text-append n body rest = simp append_assoc

abbrev pub object_text : Bytes → ℕ → Bytes → Bytes
object_text class n body =
    codes "O:"
    ++ (format_uint (length class) ++ (codes ":\"" ++ (class ++ (codes "\":" ++ braces n body))))

object_text-append :
    (class : Bytes) (n : ℕ) (body rest : Bytes)
    → object_text class n body ++ rest
      ≡ codes "O:"
        ++ (format_uint (length class)
            ++ (codes ":\""
                ++ (class
                    ++ (codes "\":"
                        ++ (format_uint n ++ (codes ":{" ++ (body ++ (codes "}" ++ rest))))))))
unfolding braces
object_text-append class n body rest = simp append_assoc

module _ (fl : FloatText) where
  pub array-Prints :
      {r : Encoded} {n : ℕ} {es : List (Value × Value)}
      → Loops fl r n es
      → Prints fl (bind r λ body. ok (codes "a:" ++ braces n body)) (of_entries es)
  unfolding read_value read_array
  array-Prints {n = n} {es = es} loop =
      let text = codes "a:" ++ braces n loop.text in
      rw loop.encoded (
        prints fl text λ L f rest fits.
          let inner : Fits L f loop.text = omega (arith, fits, length-braces n loop.text) in
          let few : n ≤ max_items = omega (arith, inner, loop.counted) in
          at_byte-Reads _ (
            Reads-input (array_text-append n loop.text rest) (
              then-Reads (expect-Reads (codes "a:")) (
                Reads-bind _ (read_length-Reads n _ (omega arith)) (
                  then-Reads (expect-Reads (codes ":{")) (
                    Reads-bind _ (make_slice-Reads n few) (
                      open_slot-Reads _ λ slot.
                        Reads-bind _ (loop.reads L f _ inner)
                          (then-Reads (expect-Reads (codes "}")) (close_slot-Reads slot _)))))))))

  length-object_text :
      (class : Bytes) (n : ℕ) (body : Bytes)
      → length class + length body + 3 ≤ length (object_text class n body)
  length-object_text class n body = omega (
    arith,
    length-braces n body,
    length-append class (codes "\":" ++ braces n body),
    length-append (format_uint (length class))
        (codes ":\"" ++ (class ++ (codes "\":" ++ braces n body))),
  )

  pub object-Prints :
      {r : Encoded} {n : ℕ} {ws : Dict Value} (class : Bytes)
      → PropertyLoops fl r n ws
      → Prints fl (bind r λ body. ok (object_text class n body)) (object class (of_fields ws))
  unfolding read_value read_object
  object-Prints {n = n} {ws = ws} class loop = rw loop.encoded (
      prints fl (object_text class n loop.text) λ L f rest fits.
        let long = length-object_text class n loop.text in
        let inner : Fits L f loop.text = omega (arith, fits, long) in
        let few : n ≤ max_items = omega (arith, inner, loop.counted) in
        at_byte-Reads _ (
          Reads-input (object_text-append class n loop.text rest) (
            then-Reads (expect-Reads (codes "O:")) (
              Reads-bind _ (read_length-Reads (length class) _ (omega (arith, fits, long))) (
                then-Reads (expect-Reads (codes ":\"")) (
                  Reads-bind _ (take_text-Reads class _ fits.small) (
                    then-Reads (expect-Reads (codes "\":")) (
                      Reads-bind _ (read_length-Reads n _ (omega arith)) (
                        then-Reads (expect-Reads (codes ":{")) (
                          open_slot-Reads _ λ slot.
                            Reads-bind _ (loop.reads L f _ [] (AllAbsent-nil ws) inner) (
                              then-Reads (expect-Reads (codes "}"))
                                (close_slot-Reads slot _))))))))))))
