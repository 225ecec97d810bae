-- ===== src/Events/Laws.antt =====
-- Who hears an event: On, Clear and Fire of pkg/events/events.go together.
use laravel_queue_go.Prelude.{
  ◌≡◌, refl, ap, Bool-cases, inl, inr, true, [], ◌∷◌, ◌++◌, if◌then◌else◌,
}
use mathlib.Core.List.{map-append}
use laravel_queue_go.Prelude.Bytes.{◌=b◌, eq_iff}
use laravel_queue_go.Prelude.Dict.{lookup, lookup-put, lookup-remove}
use laravel_queue_go.Events.{EventType, Event, Bus, name_of, on, clear, listeners, fire, or_empty}

module _ {L : Type 0} where
  same_listeners :
      (t u : EventType) (b : Bus L)
      → (name_of t =b name_of u) ≡ true
      → listeners t b ≡ listeners u b
  unfolding listeners
  same_listeners t u b e = ap (λ n. or_empty (lookup n b)) ((eq_iff (name_of t) (name_of u)).0 e)

  listeners-on :
      (t u : EventType) (l : L) (b : Bus L)
      → listeners u (on t l b)
        ≡ (if name_of t =b name_of u then listeners u b ++ l ∷ [] else listeners u b)
  unfolding on
  listeners-on t u l b = elim (Bool-cases (name_of t =b name_of u)) [
    | inl hit ↦ rw (hit, ← same_listeners t u b hit) (unfold listeners in rw (lookup-put, hit) refl)
    | inr miss ↦ rw miss (unfold listeners in rw (lookup-put, miss) refl)
  ]

  listeners-clear :
      (t u : EventType) (b : Bus L)
      → listeners u (clear t b) ≡ (if name_of t =b name_of u then [] else listeners u b)
  unfolding listeners clear
  listeners-clear t u b = rw lookup-remove (elim (Bool-cases (name_of t =b name_of u)) [
    | inl hit ↦ rw hit refl
    | inr miss ↦ rw miss refl
  ])

  -- Subscribing and firing: an event of the listener's own type calls the listeners there were, in
  -- order, and then the new one; an event of another type calls what it called before; after Clear
  -- an event of the cleared type calls nobody, and the other types are as they were.
  pub fire-on-clear :
      {E : Type 0} (t : EventType) (l : L) (b : Bus L) (e : Event E)
      → (fire e (on t l b)
          ≡ (if name_of t =b name_of e.type then fire e b ++ (l, e) ∷ [] else fire e b))
        × (fire e (clear t b) ≡ (if name_of t =b name_of e.type then [] else fire e b))
  unfolding fire
  fire-on-clear t l b e = (
    rw (listeners-on t e.type l b) (elim (Bool-cases (name_of t =b name_of e.type)) [
      | inl hit ↦ rw hit (map-append (λ l. (l, e)) (listeners e.type b) (l ∷ []))
      | inr miss ↦ rw miss refl
    ]),
    rw (listeners-clear t e.type b) (elim (Bool-cases (name_of t =b name_of e.type)) [
      | inl hit ↦ rw hit refl
      | inr miss ↦ rw miss refl
    ]),
  )
