-- ===== src/Emails/Send/Suppressed.antt =====
-- No retry reaches a suppressed recipient, and no other recipient is lost.
use bunmail.Prelude.{
  ℕ, ◌≡◌, refl, String, Bool, true, false, not, List, [], ◌∷◌, if◌then◌else◌, filter, length,
  length-filter-le, ◌++◌, all, arith,
}
use bunmail.Emails.Delivery.{retry, status_eq, DeliveryGroup, DeliveryState}
use bunmail.Emails.Send.{drop_from, drop_suppressed_recipients}

module _ (p : String → Bool) where
  all-filter : (xs : List String) → all p (filter p xs) ≡ true
  all-filter [] = refl
  all-filter (x ∷ xs) = ground (arith, all-filter xs)

  -- A filter that drops nothing kept everything.
  all_of_length : (xs : List String) → length (filter p xs) ≡ length xs → all p xs ≡ true
  all_of_length [] h = refl
  all_of_length (x ∷ xs) h = ground (arith, length-filter-le p xs, all_of_length xs)

  filter_none : (xs : List String) → length (filter p xs) ≡ 0 → filter p xs ≡ []
  filter_none xs h = nil_of_length (filter p xs) h
    where
      nil_of_length : (ys : List String) → length ys ≡ 0 → ys ≡ []
      nil_of_length [] e = refl
      nil_of_length (y ∷ ys) e = absurd (omega (arith, e))

  filter_all : (xs : List String) → length (filter p xs) ≡ length xs → filter p xs ≡ xs
  filter_all [] h = refl
  filter_all (x ∷ xs) h = ground (arith, length-filter-le p xs, filter_all xs)

module _ (is_suppressed : String → Bool) (now : ℕ) where
  abbrev clear : String → Bool
  clear r = not (is_suppressed r)

  -- The recipients that a group's next attempt would be sent to.
  abbrev pub due : DeliveryGroup → List String
  due g = if status_eq g.status retry then g.recipients else []

  abbrev pub all_due : DeliveryState → List String
  all_due [] = []
  all_due ((mx, g) ∷ state) = due g ++ all_due state

  drop_from-due : (g : DeliveryGroup) → due (drop_from is_suppressed now g) ≡ filter clear (due g)
  unfolding drop_from
  drop_from-due g = ground (arith, filter_none clear g.recipients, filter_all clear g.recipients)

  filter-append :
      (xs ys : List String) → filter clear (xs ++ ys) ≡ filter clear xs ++ filter clear ys
  filter-append [] ys = refl
  filter-append (x ∷ xs) ys = ground (arith, filter-append xs ys)

  -- The recipients due after the pass are those due before it that are not suppressed, each in its
  -- place: none that is suppressed is sent to, and no other is lost.
  pub all_due-drop :
      (state : DeliveryState)
      → all_due (drop_suppressed_recipients is_suppressed now state) ≡ filter clear (all_due state)
  unfolding drop_suppressed_recipients
  all_due-drop [] = refl
  all_due-drop ((mx, g) ∷ state) =
      rw (drop_from-due g, all_due-drop state, filter-append (due g) (all_due state)) refl

  -- What is delivered or failed is left as it is.
  pub drop_from_settled :
      (g : DeliveryGroup) → status_eq g.status retry ≡ false → drop_from is_suppressed now g ≡ g
  unfolding drop_from
  drop_from_settled g h = ground arith
