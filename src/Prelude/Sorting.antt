-- ===== src/Prelude/Sorting.antt =====
-- Insertion sort by a Boolean order, and what a rearrangement and a cut keep.
use Prim.Native.Nat.{ℕ, zero, suc, ◌≤◌}
use mathlib.Core.Path.{◌≡◌}
use mathlib.Core.Bool.{Bool, true, false}
use mathlib.Core.List.{List, [], ◌∷◌, ◌++◌}
use native.Mathlib.Omega.{arith}
use bunmail.Prelude.Tests.{if◌then◌else◌, Bool-cases}
use bunmail.Prelude.Lists.{All, filter, take, drop}
use mathlib.Core.Logic.{inl, inr}

module _ {ℓ} {A : Type ℓ} where
  abbrev pub insert_by : (A → A → Bool) → A → List A → List A
  insert_by le x [] = x ∷ []
  insert_by le x (y ∷ ys) = if le x y then x ∷ y ∷ ys else y ∷ insert_by le x ys

  abbrev pub sort_by : (A → A → Bool) → List A → List A
  sort_by le [] = []
  sort_by le (x ∷ xs) = insert_by le x (sort_by le xs)

  module _ {κ} (P : A → Type κ) where
    pub All-append : (xs ys : List A) → All P xs → All P ys → All P (xs ++ ys)
    All-append [] ys px py = py
    All-append (x ∷ xs) ys (p, px) py = (p, All-append xs ys px py)

    pub All-take : (n : ℕ) (xs : List A) → All P xs → All P (take n xs)
    All-take zero xs h = tt
    All-take (suc n) [] h = tt
    All-take (suc n) (x ∷ xs) (p, h) = (p, All-take n xs h)

    pub All-filter : (p : A → Bool) (xs : List A) → All P xs → All P (filter p xs)
    All-filter p [] h = tt
    All-filter p (x ∷ xs) (q, h) = elim (Bool-cases (p x)) [
      | inl t ↦ rw t (q, All-filter p xs h)
      | inr f ↦ rw f (All-filter p xs h)
    ]

    pub All-filter-true :
        (p : A → Bool) (xs : List A) → ((x : A) → p x ≡ true → P x) → All P (filter p xs)
    All-filter-true p [] h = tt
    All-filter-true p (x ∷ xs) h = elim (Bool-cases (p x)) [
      | inl t ↦ rw t (h x t, All-filter-true p xs h)
      | inr f ↦ rw f (All-filter-true p xs h)
    ]

    pub All-insert_by :
        (le : A → A → Bool) (x : A) (xs : List A) → P x → All P xs → All P (insert_by le x xs)
    All-insert_by le x [] p h = (p, tt)
    All-insert_by le x (y ∷ ys) p (q, h) = elim (Bool-cases (le x y)) [
      | inl t ↦ rw t (p, (q, h))
      | inr f ↦ rw f (q, All-insert_by le x ys p h)
    ]

    pub All-sort_by : (le : A → A → Bool) (xs : List A) → All P xs → All P (sort_by le xs)
    All-sort_by le [] h = tt
    All-sort_by le (x ∷ xs) (p, h) = All-insert_by le x (sort_by le xs) p (All-sort_by le xs h)

    -- And back.
    insert_by-All :
        (le : A → A → Bool) (x : A) (xs : List A) → All P (insert_by le x xs) → P x × All P xs
    insert_by-All le x [] (p, h) = (p, tt)
    insert_by-All le x (y ∷ ys) h = elim (Bool-cases (le x y)) [
      | inl t ↦ rw t at h
      | inr f ↦
          (let (q, h') : P y × All P (insert_by le x ys) = rw f at h in
            let (p, rest) = insert_by-All le x ys h' in (p, (q, rest)))
    ]

    pub sort_by-All : (le : A → A → Bool) (xs : List A) → All P (sort_by le xs) → All P xs
    sort_by-All le [] h = tt
    sort_by-All le (x ∷ xs) h =
        let (p, rest) = insert_by-All le x (sort_by le xs) h in (p, sort_by-All le xs rest)

    -- What holds of the members on both sides of a cut holds of all.
    pub take-drop-All : (n : ℕ) (xs : List A) → All P (take n xs) → All P (drop n xs) → All P xs
    take-drop-All zero xs h k = k
    take-drop-All (suc n) [] h k = tt
    take-drop-All (suc n) (x ∷ xs) (p, h) k = (p, take-drop-All n xs h k)

  module _ {κ μ} (P : A → Type κ) (Q : A → Type μ) where
    pub All-imp : (xs : List A) → All P xs → ((x : A) → P x → Q x) → All Q xs
    All-imp [] h f = tt
    All-imp (x ∷ xs) (p, h) f = (f x p, All-imp xs h f)

  -- No member ranks above a later one.
  module _ (rank : A → ℕ) where
    abbrev pub Ascending : List A → Type ℓ
    Ascending [] = Unit
    Ascending (x ∷ xs) = All (λ y. rank x ≤ rank y) xs × Ascending xs

    insert_by-Ascending :
        (le : A → A → Bool)
        → ((x y : A) → le x y ≡ true → rank x ≤ rank y)
        → ((x y : A) → le x y ≡ false → rank y ≤ rank x)
        → (x : A) (xs : List A) → Ascending xs
        → Ascending (insert_by le x xs)
    insert_by-Ascending le up down x [] h = (tt, tt)
    insert_by-Ascending le up down x (y ∷ ys) (least, h) = elim (Bool-cases (le x y)) [
      | inl t ↦ rw t (
        (
          up x y t,
          All-imp (λ z. rank y ≤ rank z) (λ z. rank x ≤ rank z) ys least
              (λ z r. omega (arith, up x y t)),
        ),
        (least, h),
      )
      | inr f ↦ rw f (
        All-insert_by (λ z. rank y ≤ rank z) le x ys (down x y f) least,
        insert_by-Ascending le up down x ys h,
      )
    ]

    pub sort_by-Ascending :
        (le : A → A → Bool)
        → ((x y : A) → le x y ≡ true → rank x ≤ rank y)
        → ((x y : A) → le x y ≡ false → rank y ≤ rank x)
        → (xs : List A) → Ascending (sort_by le xs)
    sort_by-Ascending le up down [] = tt
    sort_by-Ascending le up down (x ∷ xs) =
        insert_by-Ascending le up down x (sort_by le xs) (sort_by-Ascending le up down xs)

    -- A cut leaves the lower ranks before it.
    pub take-drop-Ascending :
        (n : ℕ) (xs : List A)
        → Ascending xs
        → All (λ x. All (λ y. rank y ≤ rank x) (take n xs)) (drop n xs)
    take-drop-Ascending zero xs h = All-any xs
      where
        All-any : (ys : List A) → All {ℓ, 0} (λ x. Unit) ys
        All-any [] = tt
        All-any (y ∷ ys) = (tt, All-any ys)
    take-drop-Ascending (suc n) [] h = tt
    take-drop-Ascending (suc n) (x ∷ xs) (least, h) =
        both (drop n xs) (All-drop n xs least) (take-drop-Ascending n xs h)
      where
        All-drop :
            (k : ℕ) (ys : List A)
            → All (λ y. rank x ≤ rank y) ys
            → All (λ y. rank x ≤ rank y) (drop k ys)
        All-drop zero ys p = p
        All-drop (suc k) [] p = tt
        All-drop (suc k) (y ∷ ys) (_, p) = All-drop k ys p

        both :
            (ys : List A)
            → All (λ y. rank x ≤ rank y) ys
            → All (λ z. All (λ y. rank y ≤ rank z) (take n xs)) ys
            → All (λ z. All (λ y. rank y ≤ rank z) (x ∷ take n xs)) ys
        both [] p q = tt
        both (y ∷ ys) (p, ps) (q, qs) = ((p, q), both ys ps qs)
