-- ===== src/Batch/Prune.antt =====
-- Prune of pkg/batch/repository.go.
use laravel_queue_go.Prelude.{
  ℕ, ◌+◌, ◌≡◌, refl, ap, ◌∙◌, sym, Bool, false, not, Option, none, some, All, List, [], ◌∷◌, length,
  arith, Bool-cases, inl, inr,
}
use laravel_queue_go.Prelude.Bytes.{Bytes}
use laravel_queue_go.Prelude.Int.{ℤ, ◌+ℤ◌, ◌≤ℤ◌, neg_ℤ}
use laravel_queue_go.Prelude.Result.{ok}
use laravel_queue_go.Sql.{Table, Site, filter}
use laravel_queue_go.Sql.Laws.{IsAlone, after, db-after, exec-alone}
use laravel_queue_go.Batch.Repository.{Row, Codec, scanned, has_id, finished_before, find, prune}
use laravel_queue_go.Batch.Alone.{Holds, find-Holds}

module _ {A : Type 0} where
  filter_swap : (p q : A → Bool) (xs : List A) → filter p (filter q xs) ≡ filter q (filter p xs)
  filter_swap p q [] = refl
  filter_swap p q (x ∷ xs) = elim (Bool-cases (p x)) [
    | inl h ↦ elim (Bool-cases (q x)) [
      | inl g ↦ rw (h, g, h) (ap (λ l. x ∷ l) (filter_swap p q xs))
      | inr g ↦ rw (h, g) (filter_swap p q xs)
    ]
    | inr h ↦ elim (Bool-cases (q x)) [
      | inl g ↦ rw (h, g, h) (filter_swap p q xs)
      | inr g ↦ rw (h, g) (filter_swap p q xs)
    ]
  ]

  length-filter-not :
      (p : A → Bool) (xs : List A)
      → length (filter p xs) + length (filter (λ x. not (p x)) xs) ≡ length xs
  length-filter-not p [] = omega arith
  length-filter-not p (x ∷ xs) = elim (Bool-cases (p x)) [
    | inl h ↦ rw h (omega (arith, length-filter-not p xs))
    | inr h ↦ rw h (omega (arith, length-filter-not p xs))
  ]

-- Not finished, or not before a time.
abbrev pub Recent : ℤ → Option ℤ → Type 0
Recent cutoff none = Unit
Recent cutoff (some t) = cutoff ≤ℤ t

Recent-finished_before : (c : ℤ) (o : Option ℤ) → Recent c o → finished_before c o ≡ false
Recent-finished_before c none h = refl
Recent-finished_before c (some t) h = ground arith

finished_before-Recent : (c : ℤ) (o : Option ℤ) → finished_before c o ≡ false → Recent c o
finished_before-Recent c none h = tt
finished_before-Recent c (some t) h = ground arith

All-filter-Recent :
    (c : ℤ) (rs : List Row)
    → All (λ r. Recent c r.finished_at) (filter (λ r. not (finished_before c r.finished_at)) rs)
All-filter-Recent c [] = tt
All-filter-Recent c (r ∷ rs) = elim (Bool-cases (finished_before c r.finished_at)) [
  | inl h ↦ rw h (All-filter-Recent c rs)
  | inr h ↦ rw h (finished_before-Recent c r.finished_at h, All-filter-Recent c rs)
]

module _ (T : Table Row) {E W : Type 0} (site : Site T E W) where
  abbrev pub cutoff : ℤ → W → ℤ
  cutoff older_than s = site.time s +ℤ neg_ℤ older_than

  -- The test of the DELETE at a time.
  abbrev old : ℤ → W → Row → Bool
  old older_than s r = finished_before (cutoff older_than s) r.finished_at

module _ (T : Table Row) {E W : Type 0} (site : Site T E W) (json : Codec E)
    (alone : IsAlone T site) where
  after_prune : ℤ → W → W
  after_prune older_than s = after T site alone (T.delete (old T site older_than s) (site.db s)).1 s

  prune-alone :
      (older_than : ℤ) (s : W)
      → prune T site json older_than s
        ≡ (ok (T.delete (old T site older_than s) (site.db s)).0, after_prune older_than s)
  unfolding prune after_prune
  prune-alone older_than s = rw (exec-alone T site alone _ s) refl

  rows_after :
      (older_than : ℤ) (s : W)
      → T.rows (site.db (after_prune older_than s))
        ≡ filter (λ r. not (old T site older_than s r)) (T.rows (site.db s))
  unfolding after_prune
  rows_after older_than s =
      ap T.rows (db-after T site alone _ s) ∙ T.rows-delete (old T site older_than s) (site.db s)

  Holds-after_prune :
      (older_than : ℤ) (id : Bytes) (r : Row) (s : W)
      → Holds T site id r s
      → old T site older_than s r ≡ false
      → Holds T site id r (after_prune older_than s)
  Holds-after_prune older_than id r s h young =
      let keep : Row → Bool = λ x. not (old T site older_than s x) in
      let e =
        T.select-rows (has_id id) (site.db (after_prune older_than s))
        ∙ ap (filter (has_id id)) (rows_after older_than s)
        ∙ filter_swap (has_id id) keep (T.rows (site.db s))
        ∙ ap (filter keep) (sym (T.select-rows (has_id id) (site.db s)) ∙ h.selected) in
      record { others = filter keep h.others; selected = e ∙ (rw young refl) }

  -- On a database that answers and that nobody else uses: Prune returns how many rows are gone; the
  -- batches left are those that are not finished and those finished at the cutoff, `older_than` ago,
  -- or later; and Find still gives such a batch, if it can scan the row.
  pub prune-Recent :
      (older_than : ℤ) (s : W) (id : Bytes) (r : Row)
      → Holds T site id r s
      → Recent (cutoff T site older_than s) r.finished_at
      → json.find_scan r ≡ none
      → (n : ℕ) × ((prune T site json older_than s).0 ≡ ok n)
        × (n + length (T.rows (site.db (prune T site json older_than s).1))
            ≡ length (T.rows (site.db s)))
        × All
            (λ q. Recent (cutoff T site older_than s) q.finished_at)
            (T.rows (site.db (prune T site json older_than s).1))
        × ((find T site json id (prune T site json older_than s).1).0 ≡ ok (scanned json r))
  prune-Recent older_than s id r h recent readable = rw (prune-alone older_than s) (
    (T.delete (old T site older_than s) (site.db s)).0,
    refl,
    (rw (rows_after older_than s, T.delete-result (old T site older_than s) (site.db s))
        (length-filter-not (old T site older_than s) (T.rows (site.db s)))),
    (rw (rows_after older_than s)
        (All-filter-Recent (cutoff T site older_than s) (T.rows (site.db s)))),
    ap (λ x. x.0)
        (find-Holds T site json alone id r (after_prune older_than s)
          (Holds-after_prune older_than id r s h
            (Recent-finished_before (cutoff T site older_than s) r.finished_at recent))
          readable),
  )
