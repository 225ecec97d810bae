-- ===== src/Failed/Order.antt =====
-- The identifiers of the table of failed jobs rise in the order of insertion.
use laravel_queue_go.Prelude.{
  ℕ, ◌<◌, ◌≡◌, refl, ap, ◌∙◌, Bool, false, List, [], ◌∷◌, ◌++◌, All, leb, arith, Bool-cases, inl,
  inr,
}
use laravel_queue_go.Sql.{filter}
use laravel_queue_go.Failed.{FailedJob, insert_by_id, latest_first}

abbrev pub Above : ℕ → List FailedJob → Type 0
Above n = All (λ r. n < r.id)

abbrev pub Below : ℕ → List FailedJob → Type 0
Below n = All (λ r. r.id < n)

abbrev pub Rising : List FailedJob → Type 0
Rising [] = Unit
Rising (x ∷ xs) = Above x.id xs × Rising xs

abbrev pub reverse : List FailedJob → List FailedJob
reverse [] = []
reverse (x ∷ xs) = reverse xs ++ x ∷ []

module _ (P : FailedJob → Type 0) where
  All-append : (xs ys : List FailedJob) → All P xs → All P ys → All P (xs ++ ys)
  All-append [] ys h g = g
  All-append (x ∷ xs) ys (h, hs) g = (h, All-append xs ys hs g)

  All-reverse : (xs : List FailedJob) → All P xs → All P (reverse xs)
  All-reverse [] h = h
  All-reverse (x ∷ xs) (h, hs) = All-append (reverse xs) (x ∷ []) (All-reverse xs hs) (h, tt)

  All-filter : (p : FailedJob → Bool) (xs : List FailedJob) → All P xs → All P (filter p xs)
  All-filter p [] h = h
  All-filter p (x ∷ xs) (h, hs) = elim (Bool-cases (p x)) [
    | inl e ↦ rw e (h, All-filter p xs hs)
    | inr e ↦ rw e (All-filter p xs hs)
  ]

insert_by_id-Above :
    (x : FailedJob) (xs : List FailedJob) → Above x.id xs → insert_by_id x xs ≡ xs ++ x ∷ []
insert_by_id-Above x [] h = refl
insert_by_id-Above x (y ∷ ys) (h, hs) =
    let g : leb y.id x.id ≡ false = ground arith in
    rw g (ap (λ l. y ∷ l) (insert_by_id-Above x ys hs))

pub latest_first-Rising : (xs : List FailedJob) → Rising xs → latest_first xs ≡ reverse xs
latest_first-Rising [] h = refl
latest_first-Rising (x ∷ xs) (above, rising) =
    ap (insert_by_id x) (latest_first-Rising xs rising)
    ∙ insert_by_id-Above x (reverse xs) (All-reverse (λ r. x.id < r.id) xs above)

pub Rising-filter : (p : FailedJob → Bool) (xs : List FailedJob) → Rising xs → Rising (filter p xs)
Rising-filter p [] h = h
Rising-filter p (x ∷ xs) (above, rising) = elim (Bool-cases (p x)) [
  | inl e ↦ rw e (All-filter (λ r. x.id < r.id) p xs above, Rising-filter p xs rising)
  | inr e ↦ rw e (Rising-filter p xs rising)
]

pub Rising-append :
    (xs : List FailedJob) (x : FailedJob) → Rising xs → Below x.id xs → Rising (xs ++ x ∷ [])
Rising-append [] x h b = (tt, tt)
Rising-append (y ∷ ys) x (above, rising) (b, bs) =
    (All-append (λ r. y.id < r.id) ys (x ∷ []) above (b, tt), Rising-append ys x rising bs)

pub Below-filter :
    (n : ℕ) (p : FailedJob → Bool) (xs : List FailedJob) → Below n xs → Below n (filter p xs)
Below-filter n p xs h = All-filter (λ r. r.id < n) p xs h

Below-weaken : (m n : ℕ) (xs : List FailedJob) → m < n → Below m xs → Below n xs
Below-weaken m n [] lt h = h
Below-weaken m n (x ∷ xs) lt (h, hs) = (omega (arith, lt, h), Below-weaken m n xs lt hs)

pub Below-append :
    (n m : ℕ) (xs : List FailedJob) (x : FailedJob)
    → n < m
    → x.id ≡ n
    → Below n xs
    → Below m (xs ++ x ∷ [])
Below-append n m xs x lt e h =
    All-append (λ r. r.id < m) xs (x ∷ []) (Below-weaken n m xs lt h) (omega (arith, lt, e), tt)
