-- ===== src/Middleware/Slices/Laws.antt =====
-- What append leaves in the slices of one array.
use laravel_queue_go.Prelude.{
  ℕ, zero, suc, ◌+◌, ◌≤◌, ◌<◌, ◌≡◌, refl, ap, ◌∙◌, sym, true, false, List, [], ◌∷◌, ◌++◌, length,
  take, drop, ◌==◌, leb, arith, Bool-cases, inl, inr, length-append, take-length-append,
  length-drop,
}
use laravel_queue_go.Middleware.Slices.{
  Slice, Heap, Growth, contents, write_at, put_cells, in_place, moved, append,
}

==-refl : (n : ℕ) → (n == n) ≡ true
==-refl n = ground arith

module _ {A : Type 0} where
  -- The array is given out, holds all of the slice, and has room for it.
  pub record IsValid (h : Heap A) (s : Slice) : Type 0 where
    pub given : s.array < h.next
    pub filled : s.len ≤ length (h.cells s.array)
    pub fits : s.len ≤ s.cap

  length-take : (n : ℕ) (xs : List A) → n ≤ length xs → length (take n xs) ≡ n
  length-take zero xs h = refl
  length-take (suc n) [] h = absurd (omega arith)
  length-take (suc n) (x ∷ xs) h = omega (arith, length-take n xs (omega arith))

  take-append :
      (k n m : ℕ) (xs ys : List A)
      → k ≡ n + m
      → n ≤ length xs
      → take k (take n xs ++ ys) ≡ take n xs ++ take m ys
  take-append k zero m xs ys e h = let same : k ≡ m = omega arith in rw same refl
  take-append zero (suc n) m xs ys e h = absurd (omega arith)
  take-append (suc k) (suc n) m [] ys e h = absurd (omega arith)
  take-append (suc k) (suc n) m (x ∷ xs) ys e h =
      ap (λ l. x ∷ l) (take-append k n m xs ys (omega arith) (omega arith))

  take-take_append :
      (k n : ℕ) (xs ys : List A) → k ≤ n → n ≤ length xs → take k (take n xs ++ ys) ≡ take k xs
  take-take_append zero n xs ys h b = refl
  take-take_append (suc k) zero xs ys h b = absurd (omega arith)
  take-take_append (suc k) (suc n) [] ys h b = absurd (omega arith)
  take-take_append (suc k) (suc n) (x ∷ xs) ys h b =
      ap (λ l. x ∷ l) (take-take_append k n xs ys (omega arith) (omega arith))

  take_exact : (n : ℕ) (xs : List A) → n ≡ length xs → take n xs ≡ xs
  take_exact zero [] h = refl
  take_exact zero (x ∷ xs) h = absurd (omega arith)
  take_exact (suc n) [] h = absurd (omega arith)
  take_exact (suc n) (x ∷ xs) h = ap (λ l. x ∷ l) (take_exact n xs (omega arith))

  module _ (s : Slice) (xs : List A) (h : Heap A) (v : IsValid h s) where
    length-contents : length (contents h s) ≡ s.len
    unfolding contents
    length-contents = length-take s.len (h.cells s.array) v.filled

    contents-in_place : contents (in_place s xs h).1 (in_place s xs h).0 ≡ contents h s ++ xs
    unfolding contents in_place put_cells write_at
    contents-in_place = rw (==-refl s.array) (
        take-append (s.len + length xs) s.len (length xs) (h.cells s.array) _ refl v.filled
        ∙ ap (λ l. take s.len (h.cells s.array) ++ l) (take-length-append xs _))

    in_place-IsValid : s.len + length xs ≤ s.cap → IsValid (in_place s xs h).1 (in_place s xs h).0
    unfolding in_place put_cells write_at contents
    in_place-IsValid room = record {
      given = v.given;
      filled = rw (==-refl s.array) (
          let rest = drop (s.len + length xs) (h.cells s.array) in
          omega (
            arith,
            length-append (take s.len (h.cells s.array)) (xs ++ rest),
            length-append xs rest,
            length-take s.len (h.cells s.array) v.filled,
          ));
      fits = room;
    }

    in_place-IsValid_other : (t : Slice) → IsValid h t → IsValid (in_place s xs h).1 t
    unfolding in_place put_cells write_at
    in_place-IsValid_other t w = record {
      given = w.given;
      filled = elim (Bool-cases (s.array == t.array)) [
        | inl same ↦
            let e : s.array ≡ t.array = ground arith in
            let c = h.cells s.array in
            let rest = drop (s.len + length xs) c in
            let w_filled : t.len ≤ length c = rw (← e) at w.filled in
            rw same (
              omega (
                arith,
                length-append (take s.len c) (xs ++ rest),
                length-append xs rest,
                length-take s.len c v.filled,
                length-drop (s.len + length xs) c,
              ))
        | inr other ↦ rw other w.filled
      ];
      fits = w.fits;
    }

    -- Writing in place leaves the slices that end where this one ends, or before, as they were.
    contents-in_place_other :
        (t : Slice)
        → (t.array ≡ s.array → t.len ≤ s.len)
        → contents (in_place s xs h).1 t ≡ contents h t
    unfolding contents in_place put_cells write_at
    contents-in_place_other t shorter = elim (Bool-cases (s.array == t.array)) [
      | inl same ↦
          let e : t.array ≡ s.array = ground arith in
          rw same (
            take-take_append t.len s.len (h.cells s.array) _ (shorter e) v.filled
            ∙ ap (λ q. take t.len (h.cells q)) (sym e))
      | inr other ↦ rw other refl
    ]

    module _ (g : Growth) where
      contents-moved : contents (moved g s xs h).1 (moved g s xs h).0 ≡ contents h s ++ xs
      unfolding contents moved put_cells
      contents-moved = rw (==-refl h.next) (
          take_exact (s.len + length xs) _
            (omega (arith, length-append (contents h s) xs, length-contents)))

      moved-IsValid : IsValid (moved g s xs h).1 (moved g s xs h).0
      unfolding moved put_cells
      moved-IsValid = record {
        given = omega arith;
        filled =
            rw (==-refl h.next) (omega (arith, length-append (contents h s) xs, length-contents));
        fits = g.enough s.cap (s.len + length xs);
      }

      contents-moved_other :
          (t : Slice) → t.array < h.next → contents (moved g s xs h).1 t ≡ contents h t
      unfolding contents moved put_cells
      contents-moved_other t given =
          let other : (h.next == t.array) ≡ false = ground arith in rw other refl

      moved-IsValid_other : (t : Slice) → IsValid h t → IsValid (moved g s xs h).1 t
      unfolding moved put_cells
      moved-IsValid_other t w =
          let other : (h.next == t.array) ≡ false = ground (arith, w.given) in
          record { given = omega (arith, w.given); filled = rw other w.filled; fits = w.fits }

      pub append-IsValid_other : (t : Slice) → IsValid h t → IsValid (append g s xs h).1 t
      unfolding append
      append-IsValid_other t w = elim (Bool-cases (leb (s.len + length xs) s.cap)) [
        | inl room ↦ rw room (in_place-IsValid_other t w)
        | inr full ↦ rw full (moved-IsValid_other t w)
      ]

      -- append gives the old contents and then the new, whether it writes in place or not.
      pub contents-append : contents (append g s xs h).1 (append g s xs h).0 ≡ contents h s ++ xs
      unfolding append
      contents-append = elim (Bool-cases (leb (s.len + length xs) s.cap)) [
        | inl room ↦ rw room contents-in_place
        | inr full ↦ rw full contents-moved
      ]

      pub append-IsValid : IsValid (append g s xs h).1 (append g s xs h).0
      unfolding append
      append-IsValid = elim (Bool-cases (leb (s.len + length xs) s.cap)) [
        | inl room ↦ rw room (in_place-IsValid (ground arith))
        | inr full ↦ rw full moved-IsValid
      ]

      pub contents-append_other :
          (t : Slice)
          → t.array < h.next
          → (t.array ≡ s.array → t.len ≤ s.len)
          → contents (append g s xs h).1 t ≡ contents h t
      unfolding append
      contents-append_other t given shorter = elim (Bool-cases (leb (s.len + length xs) s.cap)) [
        | inl room ↦ rw room (contents-in_place_other t shorter)
        | inr full ↦ rw full (contents-moved_other t given)
      ]

      -- What is not longer than the slice in its array is not longer than the slice appended to.
      pub append-array :
          (t : Slice)
          → IsValid h t
          → (t.array ≡ s.array → t.len ≤ s.len)
          → (t.array ≡ (append g s xs h).0.array → t.len ≤ (append g s xs h).0.len)
      unfolding append in_place moved
      append-array t w shorter = elim (Bool-cases (leb (s.len + length xs) s.cap)) [
        | inl room ↦ rw room (λ e. omega (arith, shorter e))
        | inr full ↦ rw full (λ e. absurd (omega (arith, w.given, e)))
      ]

      -- The slice appended to twice, each time with as many items and with room for them.
      pub contents-append_twice :
          (ys : List A)
          → length ys ≡ length xs
          → s.len + length xs ≤ s.cap
          → contents (append g s ys (append g s xs h).1).1 (append g s xs h).0 ≡ contents h s ++ ys
      unfolding append in_place put_cells write_at contents
      contents-append_twice ys same room =
          let first : leb (s.len + length xs) s.cap ≡ true = ground arith in
          let second : leb (s.len + length ys) s.cap ≡ true = ground arith in
          let cells = h.cells s.array in
          let written = write_at s.len xs cells in
          let filled : s.len ≤ length written = omega (
            arith,
            length-append (take s.len cells) (xs ++ drop (s.len + length xs) cells),
            length-take s.len cells v.filled,
          ) in
          let rest = drop (s.len + length ys) written in
          rw (first, second, ==-refl s.array)
            (take-append (s.len + length xs) s.len (length xs) written (ys ++ rest) refl filled
              ∙ ap (λ l. l ++ take (length xs) (ys ++ rest))
                  (take-take_append s.len s.len cells _ (omega arith) v.filled)
              ∙ ap (λ n. take s.len cells ++ take n (ys ++ rest)) (sym same)
              ∙ ap (λ l. take s.len cells ++ l) (take-length-append ys rest))
