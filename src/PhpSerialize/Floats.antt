-- ===== src/PhpSerialize/Floats.antt =====
-- IEEE 754 bit patterns, and what the package takes from strconv for their text.
use laravel_queue_go.Prelude.{
  ℕ, zero, suc, ◌+◌, ◌-◌, ◌*◌, ◌/◌, ◌%◌, ◌^◌, ◌<◌, ◌≡◌, ◌⊎◌, Bool, true, ◌||◌, ◌&&◌, Option, some,
  ltb, refl, ◌==◌, if◌then◌else◌, All,
}
use laravel_queue_go.Prelude.Bytes.{Bytes}
use laravel_queue_go.Prelude.Int.{ℤ, pos, negsuc, neg_ℕ, max_int64}
use laravel_queue_go.Strconv.RoundTrip.{IsDigit}

abbrev pub pos_inf : ℕ
pos_inf = 0x7ff0000000000000

abbrev pub neg_inf : ℕ
neg_inf = 0xfff0000000000000

-- What math.NaN returns.
abbrev pub nan : ℕ
nan = 0x7ff8000000000001

unfoldable pub is_nan : ℕ → Bool
is_nan b = ltb pos_inf (b % 2 ^ 63)

abbrev pub is_finite : ℕ → Bool
is_finite b = ltb (b % 2 ^ 63) pos_inf

-- strconv.FormatFloat(x, 'f', -1, 64) and strconv.ParseFloat(s, 64) on bit patterns. The shortest
-- print of a finite number is read back as that number, and holds only digits, a point and a sign.
pub record FloatText : Type 0 where
  pub format : ℕ → Bytes
  pub parse : Bytes → Option ℕ
  pub parse-format : (b : ℕ) → b < 2 ^ 64 → is_finite b ≡ true → parse (format b) ≡ some b
  pub format_bytes :
      (b : ℕ) → is_finite b ≡ true → All (λ c. IsDigit c ⊎ ((c ≡ b'.') ⊎ (c ≡ b'-'))) (format b)

-- The shift that brings the leading bit of a subnormal float32's fraction to place 23.
leading : ℕ → ℕ → ℕ
leading zero m = 0
leading (suc f) m = let rest = leading f (2 * m) in if ltb m 8388608 then suc rest else 0

-- float64(x) for a float32 x.
unfoldable pub widen : ℕ → ℕ
unfolding leading
widen b =
    let sign = b / 2 ^ 31 * 2 ^ 63 in
    let e = b / 2 ^ 23 % 256 in
    let m = b % 2 ^ 23 in
    let k = leading 23 m in
    if e == 255
    then sign + 0x7ff0000000000000 + m * 2 ^ 29
    else if ltb 0 e
    then sign + (e + 896) * 2 ^ 52 + m * 2 ^ 29
    else if m == 0
    then sign
    else sign + (897 - k) * 2 ^ 52 + (m * 2 ^ k - 2 ^ 23) * 2 ^ 29

-- int64(x): truncation towards zero. Out of the range of int64 Go leaves the result open; this is
-- what amd64 gives.
magnitude : ℕ → ℕ
magnitude b =
    let e = b / 2 ^ 52 % 2048 in
    let m = b % 2 ^ 52 in
    if e == 0
    then 0
    else if ltb e 1075
    then (m + 2 ^ 52) / 2 ^ (1075 - e)
    else (m + 2 ^ 52) * 2 ^ (e - 1075)

unfoldable pub float_to_int : ℕ → ℤ
unfolding magnitude
float_to_int b =
    let n = magnitude b in
    if ltb b (2 ^ 63)
    then if ltb n (2 ^ 63) then pos n else negsuc max_int64
    else if ltb n (2 ^ 63)
    then neg_ℕ n
    else negsuc max_int64

bit_length : ℕ → ℕ → ℕ
bit_length zero n = 0
bit_length (suc f) n = let rest = bit_length f (n / 2) in if n == 0 then 0 else suc rest

-- float64(n) for a number below 2^64: the nearest double, ties to even.
nearest : ℕ → ℕ
unfolding bit_length
nearest n =
    let l = bit_length 64 n in
    let k = l - 53 in
    let q = n / 2 ^ k in
    let r = 2 * (n % 2 ^ k) in
    let up = if ltb (2 ^ k) r || (r == 2 ^ k && q % 2 == 1) then 1 else 0 in
    if n == 0
    then 0
    else if ltb l 54
    then (l + 1022) * 2 ^ 52 + (n * 2 ^ (53 - l) - 2 ^ 52)
    else (l + 1022) * 2 ^ 52 + (q + up - 2 ^ 52)

unfoldable pub float_of_int : ℤ → ℕ
unfolding nearest
float_of_int (pos n) = nearest n
float_of_int (negsuc n) = 2 ^ 63 + nearest (suc n)

truncate_runs : float_to_int 0xc025b33333333333 ≡ negsuc 9
unfolding float_to_int
truncate_runs = refl

convert_runs : float_of_int (negsuc 0x1fffffffffffff) ≡ 0xc340000000000000
unfolding float_of_int
convert_runs = refl
