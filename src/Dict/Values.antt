-- ===== src/Dict/Values.antt =====
-- Predicates on all values of a map.
use bunmail.Prelude.{String, Bool, [], ◌∷◌, str_eq, Bool-cases, inl, inr}
use bunmail.Dict.Defs.{Dict, get, set, delete, keep, HasSome}

module _ {ℓ κ} {V : Type ℓ} (P : V → Type κ) where
  abbrev pub AllValues : Dict V → Type κ
  AllValues [] = Unit
  AllValues ((k, v) ∷ m) = P v × AllValues m

  pub AllValues-get : (m : Dict V) (k : String) → AllValues m → HasSome P (get m k)
  unfolding get
  AllValues-get [] k h = tt
  AllValues-get ((j, v) ∷ m) k (p, h) = elim (Bool-cases (str_eq j k)) [
    | inl same ↦ rw same p
    | inr other ↦ rw other (AllValues-get m k h)
  ]

  pub AllValues-set : (m : Dict V) (k : String) (v : V) → AllValues m → P v → AllValues (set m k v)
  unfolding set
  AllValues-set [] k v h p = (p, tt)
  AllValues-set ((j, w) ∷ m) k v (q, h) p = elim (Bool-cases (str_eq j k)) [
    | inl same ↦ rw same (p, h)
    | inr other ↦ rw other (q, AllValues-set m k v h p)
  ]

  pub AllValues-delete : (m : Dict V) (k : String) → AllValues m → AllValues (delete m k)
  unfolding delete
  AllValues-delete [] k h = tt
  AllValues-delete ((j, w) ∷ m) k (q, h) = elim (Bool-cases (str_eq j k)) [
    | inl same ↦ rw same (AllValues-delete m k h)
    | inr other ↦ rw other (q, AllValues-delete m k h)
  ]

  pub AllValues-keep : (p : V → Bool) (m : Dict V) → AllValues m → AllValues (keep p m)
  unfolding keep
  AllValues-keep p [] h = tt
  AllValues-keep p ((j, w) ∷ m) (q, h) = elim (Bool-cases (p w)) [
    | inl kept ↦ rw kept (q, AllValues-keep p m h)
    | inr gone ↦ rw gone (AllValues-keep p m h)
  ]
