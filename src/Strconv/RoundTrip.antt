-- ===== src/Strconv/RoundTrip.antt =====
-- Numbers printed and read back, and the bytes of a printed number.
use laravel_queue_go.Prelude.{
  false, ◌∙◌, Bool-cases, inl, inr, ℕ, zero, suc, ◌+◌, ◌*◌, ◌/◌, ◌%◌, ◌≤◌, ◌≡◌, ◌≢◌, refl, [], ◌∷◌,
  some, ltb, ◌==◌, arith, All,
}
use laravel_queue_go.Prelude.Bytes.{Bytes}
use laravel_queue_go.Prelude.Int.{ℤ, pos, negsuc, max_int64, InInt64}
use laravel_queue_go.Strconv.{digits, format_uint, format_int, scan, parse_uint, parse_int}

abbrev pub IsDigit : ℕ → Type 0
IsDigit c = (b'0' ≤ c) × (c ≤ b'9')

scan-digit :
    (n acc : ℕ) (out : Bytes) → scan ((b'0' + n % 10) ∷ out) acc ≡ scan out (acc * 10 + n % 10)
unfolding scan
scan-digit n acc out = ground arith

scan-digits : (f n : ℕ) (out : Bytes) → n ≤ f → scan (digits f n out) 0 ≡ scan out n
unfolding digits scan
scan-digits zero n out h = ground arith
scan-digits (suc f) n out h = ground (arith, scan-digits f (n / 10) ((b'0' + n % 10) ∷ out))

digits-IsDigit : (f n : ℕ) (out : Bytes) → All IsDigit out → All IsDigit (digits f n out)
unfolding digits
digits-IsDigit zero n out h = ground arith
digits-IsDigit (suc f) n out h = ground (arith, digits-IsDigit f (n / 10) ((b'0' + n % 10) ∷ out))

digits-cons : (f n : ℕ) (out : Bytes) → (c : ℕ) × (s : Bytes) × (digits f n out ≡ c ∷ s)
unfolding digits
digits-cons zero n out = (_, _, refl)
digits-cons (suc f) n out = elim (Bool-cases (ltb n 10)) [
  | inl small ↦ (b'0' + n % 10, out, rw small)
  | inr big ↦ rw big (digits-cons f (n / 10) ((b'0' + n % 10) ∷ out))
]

pub format_uint-IsDigit : (n : ℕ) → All IsDigit (format_uint n)
unfolding format_uint
format_uint-IsDigit n = digits-IsDigit n n [] tt

pub format_uint-cons : (n : ℕ) → (c : ℕ) × (s : Bytes) × (format_uint n ≡ c ∷ s)
unfolding format_uint
format_uint-cons n = digits-cons n n []

parse_uint-scan : (s : Bytes) {c : ℕ} {t : Bytes} → s ≡ c ∷ t → parse_uint s ≡ scan s 0
unfolding parse_uint
parse_uint-scan [] e = cc
parse_uint-scan (c ∷ s) e = refl

pub parse_uint-format : (n : ℕ) → parse_uint (format_uint n) ≡ some n
parse_uint-format n =
    parse_uint-scan _ (format_uint-cons n).2
    ∙ (unfold format_uint scan in scan-digits n n [] (omega arith))

head-IsDigit : (n : ℕ) {c : ℕ} {s : Bytes} → format_uint n ≡ c ∷ s → IsDigit c
head-IsDigit n e = (rw e at (format_uint-IsDigit n)).0

pub parse_int-format_uint : (n : ℕ) → n ≤ max_int64 → parse_int (format_uint n) ≡ some (pos n)
unfolding parse_int
parse_int-format_uint n h =
    let (c, s, e) = format_uint-cons n in
    let p = parse_uint-format n in rw e (ground (arith, head-IsDigit n e, rw e at p))

-- Every int64 is read back from its decimal print.
pub parse_int-format : (z : ℤ) → InInt64 z → parse_int (format_int z) ≡ some z
unfolding format_int
parse_int-format (pos n) h = parse_int-format_uint n h.0
parse_int-format (negsuc n) h = unfold parse_int in rw (parse_uint-format (suc n)) (ground arith)

-- A byte that is no digit does not stand in a number.
abbrev pub Lacks : ℕ → Bytes → Type 0
Lacks b = All (λ c. (c == b) ≡ false)

All-IsDigit-Lacks : (b : ℕ) (s : Bytes) → ((IsDigit b) → ⊥) → All IsDigit s → Lacks b s
All-IsDigit-Lacks b [] h _ = tt
All-IsDigit-Lacks b (c ∷ s) h (p, ps) = (ground arith, All-IsDigit-Lacks b s h ps)

pub format_uint-Lacks : (b n : ℕ) → (IsDigit b → ⊥) → Lacks b (format_uint n)
format_uint-Lacks b n h = All-IsDigit-Lacks b _ h (format_uint-IsDigit n)

pub format_int-Lacks : (b : ℕ) (z : ℤ) → (IsDigit b → ⊥) → b ≢ b'-' → Lacks b (format_int z)
unfolding format_int
format_int-Lacks b (pos n) h k = format_uint-Lacks b n h
format_int-Lacks b (negsuc n) h k = (ground arith, format_uint-Lacks b (suc n) h)
