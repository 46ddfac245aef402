-- ===== src/Dict/Laws.antt =====
-- What `get` finds after each operation, and which operations keep the keys distinct.
use bunmail.Prelude.{
  true, String, Bool, [], ◌∷◌, Option, none, some, if◌then◌else◌, str_eq, eq_iff, ◌≡◌, refl, arith,
  eq_refl,
}
use bunmail.Dict.Defs.{Dict, get, set, delete, keep, Distinct}

module _ {ℓ} {V : Type ℓ} where
  pub get-set :
      (m : Dict V) (k : String) (v : V) (j : String)
      → get (set m k v) j ≡ (if str_eq k j then some v else get m j)
  unfolding get set
  get-set [] k v j = refl
  get-set ((i, w) ∷ m) k v j = ground (arith, eq_iff k j, eq_iff i k, eq_iff i j, get-set m k v j)

  pub get-set_self : (m : Dict V) (k : String) (v : V) → get (set m k v) k ≡ some v
  get-set_self m k v = simp (get-set, eq_refl)

  pub get-delete :
      (m : Dict V) (k j : String) → get (delete m k) j ≡ (if str_eq k j then none else get m j)
  unfolding get delete
  get-delete [] k j = ground arith
  get-delete ((i, w) ∷ m) k j = ground (arith, eq_iff k j, eq_iff i k, eq_iff i j, get-delete m k j)

  pub get-delete_self : (m : Dict V) (k : String) → get (delete m k) k ≡ none
  get-delete_self m k = simp (get-delete, eq_refl)

  abbrev pub option_filter : (V → Bool) → Option V → Option V
  option_filter p none = none
  option_filter p (some v) = if p v then some v else none

  pub get-keep-none :
      (p : V → Bool) (m : Dict V) (j : String) → get m j ≡ none → get (keep p m) j ≡ none
  unfolding get keep
  get-keep-none p [] j h = refl
  get-keep-none p ((i, w) ∷ m) j h = ground (arith, get-keep-none p m j)

  -- A binding that the loop keeps is found after it.
  pub get-keep-some :
      (p : V → Bool) (m : Dict V) (j : String) (v : V)
      → get m j ≡ some v
      → p v ≡ true
      → get (keep p m) j ≡ some v
  unfolding get keep
  get-keep-some p [] j v h k = cc
  get-keep-some p ((i, w) ∷ m) j v h k = ground (arith, get-keep-some p m j v)

  pub get-keep :
      (p : V → Bool) (m : Dict V) (j : String)
      → Distinct m
      → get (keep p m) j ≡ option_filter p (get m j)
  unfolding get keep
  get-keep p [] j d = refl
  get-keep p ((i, w) ∷ m) j (new, d) =
      ground (arith, eq_iff i j, get-keep p m j d, get-keep-none p m i new)

  pub set-Distinct : (m : Dict V) (k : String) (v : V) → Distinct m → Distinct (set m k v)
  unfolding set get
  set-Distinct [] k v d = (refl, tt)
  set-Distinct ((i, w) ∷ m) k v (new, d) =
      ground (arith, eq_iff i k, eq_iff k i, get-set m k v i, set-Distinct m k v d)

  pub delete-Distinct : (m : Dict V) (k : String) → Distinct m → Distinct (delete m k)
  unfolding delete get
  delete-Distinct [] k d = tt
  delete-Distinct ((i, w) ∷ m) k (new, d) = ground (arith, get-delete m k i, delete-Distinct m k d)

  pub keep-Distinct : (p : V → Bool) (m : Dict V) → Distinct m → Distinct (keep p m)
  unfolding keep
  keep-Distinct p [] d = tt
  keep-Distinct p ((i, w) ∷ m) (new, d) =
      ground (arith, get-keep-none p m i new, keep-Distinct p m d)
