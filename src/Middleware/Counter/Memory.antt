-- ===== src/Middleware/Counter/Memory.antt =====
-- A store of counters in memory, for runs.
use laravel_queue_go.Prelude.{
  ℕ, ◌≤◌, ◌≡◌, refl, ap, ◌∙◌, true, Option, none, some, leb, if◌then◌else◌, arith, Bool-cases, inl,
  inr,
}
use laravel_queue_go.Prelude.Bytes.{Bytes, ◌=b◌}
use laravel_queue_go.Prelude.Int.{ℤ}
use laravel_queue_go.Middleware.Counter.{CounterStore, Entry, add_to, set_deadline, live, keep}

abbrev pub Counters : Type 0
Counters = Bytes → Option Entry

abbrev pub put : Bytes → Option Entry → Counters → Counters
put k e d j = if k =b j then e else d j

pub live-put :
    (t : ℕ) (k j : Bytes) (e : Option Entry) (d : Counters)
    → live t (put k e d j) ≡ (if k =b j then live t e else live t (d j))
live-put t k j e d = elim (Bool-cases (k =b j)) [ inl h ↦ rw h refl | inr h ↦ rw h refl ]

keep-add :
    (t : ℕ) (n v : ℤ) (o : Option ℕ)
    → live t (some (add_to n (keep t v o))) ≡ some (add_to n (keep t v o))
keep-add t n v none = refl
keep-add t n v (some u) = elim (Bool-cases (leb u t)) [ inl h ↦ rw h refl | inr h ↦ rw (h, h) refl ]

pub live-add_to :
    (t : ℕ) (n : ℤ) (e : Option Entry)
    → live t (some (add_to n (live t e))) ≡ some (add_to n (live t e))
live-add_to t n none = refl
live-add_to t n (some e) = keep-add t n e.value e.deadline

live-keep : (t u : ℕ) (v : ℤ) (o : Option ℕ) → t ≤ u → keep u v o ≡ live u (keep t v o)
live-keep t u v none le = refl
live-keep t u v (some w) le = elim (Bool-cases (leb w t)) [
  | inl h ↦ let g : leb w u ≡ true = ground arith in rw (h, g) refl
  | inr h ↦ rw h refl
]

pub live-live : (t u : ℕ) (e : Option Entry) → t ≤ u → live u e ≡ live u (live t e)
live-live t u none le = refl
live-live t u (some e) le = live-keep t u e.value e.deadline le

pub added :
    (t : ℕ) (k : Bytes) (n : ℤ) (d : Counters) (j : Bytes)
    → live t (put k (some (add_to n (live t (d k)))) d j)
      ≡ (if k =b j then some (add_to n (live t (d k))) else live t (d j))
added t k n d j =
    live-put t k j _ d ∙ ap (λ e. if k =b j then e else live t (d j)) (live-add_to t n (d k))

abbrev pub counters : CounterStore
counters = record {
  Db = Counters;
  view = λ t d k. live t (d k);
  add = λ t k n d. let e = add_to n (live t (d k)) in (e.value, put k (some e) d);
  expire = λ t k u d. put k (set_deadline u (live t (d k))) d;
  del = λ k d. put k none d;
  add-result = λ t k n d. refl;
  view-add = added;
  view-expire = λ t k u d j. live-put t k j _ d;
  view-del = λ t k d j. live-put t k j none d;
  view-later = λ t u d j le. live-live t u (d j) le;
}
