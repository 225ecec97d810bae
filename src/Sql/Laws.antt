-- ===== src/Sql/Laws.antt =====
-- Selections from a table after a statement, and calls that no other client comes between.
use laravel_queue_go.Prelude.{
  ℕ, ◌≡◌, refl, ap, ◌∙◌, sym, Bool, List, [], ◌∷◌, ◌++◌, map, Bool-cases, inl, inr,
}
use laravel_queue_go.Prelude.Result.{ok}
use laravel_queue_go.Middleware.Lock.{up}
use laravel_queue_go.Sql.{Table, Site, filter, update_if, exec, exec_link, query}

module _ {A : Type 0} (p : A → Bool) where
  filter-append : (xs ys : List A) → filter p (xs ++ ys) ≡ filter p xs ++ filter p ys
  filter-append [] ys = refl
  filter-append (x ∷ xs) ys = elim (Bool-cases (p x)) [
    | inl h ↦ rw h (ap (λ l. x ∷ l) (filter-append xs ys))
    | inr h ↦ rw h (filter-append xs ys)
  ]

  -- An update of the rows that a test picks, which keeps the test's answer.
  filter-update :
      (f : A → A)
      → ((x : A) → p (f x) ≡ p x)
      → (xs : List A) → filter p (map (update_if p f) xs) ≡ map f (filter p xs)
  filter-update f same [] = refl
  filter-update f same (x ∷ xs) = elim (Bool-cases (p x)) [
    | inl h ↦ rw (h, same x, h) (ap (λ l. f x ∷ l) (filter-update f same xs))
    | inr h ↦ rw (h, h) (filter-update f same xs)
  ]

module _ {Row : Type 0} (T : Table Row) (p : Row → Bool) where
  pub select-insert :
      (f : ℕ → Row) (d : T.Db)
      → T.select p (T.insert f d) ≡ T.select p d ++ filter p (f (T.next_id d) ∷ [])
  select-insert f d =
      T.select-rows p (T.insert f d)
      ∙ ap (filter p) (T.rows-insert f d)
      ∙ filter-append p (T.rows d) (f (T.next_id d) ∷ [])
      ∙ ap (λ l. l ++ filter p (f (T.next_id d) ∷ [])) (sym (T.select-rows p d))

  pub select-update :
      (f : Row → Row)
      → ((r : Row) → p (f r) ≡ p r)
      → (d : T.Db) → T.select p (T.update p f d) ≡ map f (T.select p d)
  select-update f same d =
      T.select-rows p (T.update p f d)
      ∙ ap (filter p) (T.rows-update p f d)
      ∙ filter-update p f same (T.rows d)
      ∙ ap (map f) (sym (T.select-rows p d))

-- The database answers, and nobody else uses it.
pub record IsAlone {Row : Type 0} (T : Table Row) {E W : Type 0} (site : Site T E W) : Type 0 where
  pub connected : (s : W) → site.link s ≡ up
  pub db_put : (d : T.Db) (s : W) → site.db (site.put_db d s) ≡ d
  pub db_pass : (s : W) → site.db (site.pass s) ≡ site.db s

module _ {Row : Type 0} (T : Table Row) {E W : Type 0} (site : Site T E W)
    (alone : IsAlone T site) where
  -- The world after a call that leaves a database.
  abbrev pub after : T.Db → W → W
  after d s = site.pass (site.put_db d s)

  pub db-after : (d : T.Db) (s : W) → site.db (after d s) ≡ d
  db-after d s = alone.db_pass (site.put_db d s) ∙ alone.db_put d s

  pub exec-alone :
      {A : Type 0} (f : T.Db → A × T.Db) (s : W)
      → exec T site f s ≡ (ok (f (site.db s)).0, after (f (site.db s)).1 s)
  unfolding exec exec_link
  exec-alone f s = rw (alone.connected s) refl

  pub query-alone :
      (p : Row → Bool) (s : W)
      → query T site p s ≡ (ok (T.select p (site.db s)), after (site.db s) s)
  unfolding query
  query-alone p s = exec-alone (λ d. (T.select p d, d)) s
