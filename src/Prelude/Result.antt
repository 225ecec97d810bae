-- ===== src/Prelude/Result.antt =====
-- What a call of the Go code comes to.

-- `panic` is a run-time panic; `out_of_fuel` has no counterpart in the program.
pub data Result {ℓ} (E : Type 0) (A : Type ℓ) : Type ℓ where
  ok : A → Result E A
  err : E → Result E A
  panic out_of_fuel : Result E A

abbrev pub bind {ℓ κ} :
    {E : Type 0} {A : Type ℓ} {B : Type κ} → Result E A → (A → Result E B) → Result E B
bind (ok a) f = f a
bind (err e) f = err e
bind panic f = panic
bind out_of_fuel f = out_of_fuel
