-- ===== src/Batch/Alone.antt =====
-- The methods of pkg/batch/repository.go on a database that answers and that nobody else uses.
use laravel_queue_go.Prelude.{Option, none, ◌≡◌, refl, ap, ◌∙◌, List, [], ◌∷◌, map}
use laravel_queue_go.Prelude.Bytes.{Bytes, ◌=b◌, =b-refl}
use laravel_queue_go.Prelude.Result.{ok}
use laravel_queue_go.Sql.{Table, SetOrder, at_once, left_to_right, Site}
use laravel_queue_go.Prelude.Int.{ℤ}
use laravel_queue_go.Sql.Laws.{
  IsAlone, after, db-after, exec-alone, query-alone, select-insert, select-update,
}
use laravel_queue_go.Batch.Repository.{
  Row, CreateOptions, Codec, decremented, scanned, has_id, new_row, new_batch, find_row, find,
  create, update_row, decrement_pending_jobs,
}

decremented-id : (o : SetOrder) (now : ℤ) (q : Row) → (decremented o now q).id ≡ q.id
decremented-id at_once now q = refl
decremented-id left_to_right now q = refl

module _ (T : Table Row) {E W : Type 0} (site : Site T E W) where
  -- The first row with an identifier.
  pub record Holds (id : Bytes) (r : Row) (s : W) : Type 0 where
    pub others : List Row
    pub selected : T.select (has_id id) (site.db s) ≡ r ∷ others

  module _ (json : Codec E) (alone : IsAlone T site) where
    pub Holds-after :
        (id : Bytes) (r : Row) (rs : List Row) (d : T.Db) (s : W)
        → T.select (has_id id) d ≡ r ∷ rs
        → Holds id r (after T site alone d s)
    Holds-after id r rs d s e = record { others = rs; selected = rw (db-after T site alone d s) e }

    pub find_row-Holds :
        (columns : Row → Option E) (id : Bytes) (r : Row) (s : W)
        → Holds id r s
        → columns r ≡ none
        → find_row T site json columns id s ≡ (ok r, after T site alone (site.db s) s)
    unfolding find_row
    find_row-Holds columns id r s h c =
        rw (query-alone T site alone (has_id id) s, h.selected, c) refl

    pub find-Holds :
        (id : Bytes) (r : Row) (s : W)
        → Holds id r s
        → json.find_scan r ≡ none
        → find T site json id s ≡ (ok (scanned json r), after T site alone (site.db s) s)
    unfolding find
    find-Holds id r s h c = rw (find_row-Holds json.find_scan id r s h c) refl

    pub Holds-update :
        (id : Bytes) (r : Row) (f : Row → Row) (s : W)
        → ((q : Row) → (f q).id ≡ q.id)
        → Holds id r s
        → Holds id (f r) (after T site alone (T.update (has_id id) f (site.db s)) s)
    Holds-update id r f s same h = Holds-after id (f r) (map f h.others) _ s (
        select-update T (has_id id) f (λ q. ap (λ i. i =b id) (same q)) (site.db s)
        ∙ ap (map f) h.selected)

    -- The world after a decrement.
    abbrev pub after_decrement : Bytes → W → W
    after_decrement id s =
        let w =
          after T site alone
            (T.update (has_id id) (decremented T.set_order (site.time s)) (site.db s)) s in
        after T site alone (site.db w) w

    pub Holds-after_decrement :
        (id : Bytes) (r : Row) (s : W)
        → Holds id r s
        → Holds id (decremented T.set_order (site.time s) r) (after_decrement id s)
    Holds-after_decrement id r s h =
        let g =
          Holds-update id r (decremented T.set_order (site.time s)) s
            (decremented-id T.set_order (site.time s)) h in
        Holds-after id _ g.others _ _ g.selected

    pub decrement_pending_jobs-Holds :
        (id : Bytes) (r : Row) (s : W)
        → Holds id r s
        → json.find_scan (decremented T.set_order (site.time s) r) ≡ none
        → decrement_pending_jobs T site json id s
          ≡ (ok (scanned json (decremented T.set_order (site.time s) r)), after_decrement id s)
    unfolding decrement_pending_jobs update_row
    decrement_pending_jobs-Holds id r s h c = rw (exec-alone T site alone _ s) (
        find-Holds id _ _
          (Holds-update id r (decremented T.set_order (site.time s)) s
            (decremented-id T.set_order (site.time s)) h)
          c)

    -- The world after a batch is created.
    abbrev pub after_create : Bytes → CreateOptions → W → W
    after_create id opts s =
        after T site alone (T.insert (λ n. new_row json opts id (site.time s)) (site.db s)) s

    pub create-alone :
        (id : Bytes) (opts : CreateOptions) (s : W)
        → create T site json id opts s
          ≡ (ok (new_batch json opts id (site.time s)), after_create id opts s)
    unfolding create
    create-alone id opts s = rw (exec-alone T site alone _ s) refl

    pub Holds-after_create :
        (id : Bytes) (opts : CreateOptions) (s : W)
        → T.select (has_id id) (site.db s) ≡ []
        → Holds id (new_row json opts id (site.time s)) (after_create id opts s)
    Holds-after_create id opts s e =
        Holds-after id _ [] _ s
          (select-insert T (has_id id) _ (site.db s) ∙ (rw (e, =b-refl id) refl))
