-- ===== src/Strconv.antt =====
-- strconv.FormatInt, strconv.FormatUint, strconv.Itoa, strconv.Atoi and strconv.ParseInt at base 10
-- and 64 bits, as the encoder and the decoder use them.
pub mod RoundTrip
mod Tests
use laravel_queue_go.Prelude.{
  ℕ, zero, suc, ◌+◌, ◌-◌, ◌*◌, ◌/◌, ◌%◌, ◌≡◌, refl, Bool, ◌||◌, ◌&&◌, List, [], ◌∷◌, ◌++◌, Option,
  none, some, ltb, leb, ◌==◌, if◌then◌else◌,
}
use laravel_queue_go.Prelude.Bytes.{Bytes, codes}
use laravel_queue_go.Prelude.Int.{ℤ, pos, negsuc, neg_ℕ, max_int64, max_uint64}

-- The decimal digits of n before those of `out`; fuel n is enough.
digits : ℕ → ℕ → Bytes → Bytes
digits zero n out = (b'0' + n % 10) ∷ out
digits (suc f) n out =
    let d = b'0' + n % 10 in
    let rest = digits f (n / 10) (d ∷ out) in if ltb n 10 then d ∷ out else rest

unfoldable pub format_uint : ℕ → Bytes
unfolding digits
format_uint n = digits n n []

unfoldable pub format_int : ℤ → Bytes
format_int (pos n) = format_uint n
format_int (negsuc n) = b'-' ∷ format_uint (suc n)

-- The value of a run of digits after `acc`; none at a byte that is no digit.
scan : Bytes → ℕ → Option ℕ
scan [] acc = some acc
scan (c ∷ s) acc =
    let rest = scan s (acc * 10 + (c - b'0')) in if ltb c b'0' || ltb b'9' c then none else rest

pub parse_uint : Bytes → Option ℕ
unfolding scan
parse_uint [] = none
parse_uint (c ∷ s) = scan (c ∷ s) 0

abbrev positive : Option ℕ → Option ℤ
positive none = none
positive (some n) = if leb n max_int64 then some (pos n) else none

abbrev negative : Option ℕ → Option ℤ
negative none = none
negative (some n) = if leb n (max_int64 + 1) then some (neg_ℕ n) else none

-- A sign is optional; a number out of the range of int64 is refused.
unfoldable pub parse_int : Bytes → Option ℤ
unfolding parse_uint
parse_int [] = none
parse_int (c ∷ s) =
    if c == b'-'
    then negative (parse_uint s)
    else if c == b'+'
    then positive (parse_uint s)
    else positive (parse_uint (c ∷ s))

-- What ParseInt returns beside its error: 0 for a text that is no number, and for a number out of
-- range the nearest int64. The scan stops at the first digit past the range of uint64.
scan_clamped : Bytes → ℕ → ℕ
scan_clamped [] acc = acc
scan_clamped (c ∷ s) acc =
    let n = acc * 10 + (c - b'0') in
    let rest = scan_clamped s n in
    if ltb c b'0' || ltb b'9' c then 0 else if ltb max_uint64 n then max_uint64 else rest

clamp_positive : ℕ → ℤ
clamp_positive n = if leb n max_int64 then pos n else pos max_int64

clamp_negative : ℕ → ℤ
clamp_negative n = if leb n (max_int64 + 1) then neg_ℕ n else negsuc max_int64

unfoldable pub parse_int_clamped : Bytes → ℤ
unfolding scan_clamped clamp_positive clamp_negative
parse_int_clamped [] = pos 0
parse_int_clamped (c ∷ s) =
    if c == b'-'
    then clamp_negative (scan_clamped s 0)
    else if c == b'+'
    then clamp_positive (scan_clamped s 0)
    else clamp_positive (scan_clamped (c ∷ s) 0)
