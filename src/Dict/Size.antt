-- ===== src/Dict/Size.antt =====
-- How each operation changes `size`, the length of the entries.
use bunmail.Prelude.{
  ◌≤◌, ◌<◌, ◌+◌, suc, String, Bool, true, [], ◌∷◌, none, if◌then◌else◌, ◌≡◌, refl, arith, length,
}
use bunmail.Dict.Defs.{Dict, get, has, set, delete, keep, dropped}

module _ {ℓ} {V : Type ℓ} where
  pub length-set :
      (m : Dict V) (k : String) (v : V)
      → length (set m k v) ≡ (if has m k then length m else suc (length m))
  unfolding set get
  length-set [] k v = refl
  length-set ((i, w) ∷ m) k v = ground (arith, length-set m k v)

  pub length-delete-le : (m : Dict V) (k : String) → length (delete m k) ≤ length m
  unfolding delete
  length-delete-le [] k = omega arith
  length-delete-le ((i, w) ∷ m) k = ground (arith, length-delete-le m k)

  pub length-delete-lt : (m : Dict V) (k : String) → has m k ≡ true → length (delete m k) < length m
  unfolding delete get
  length-delete-lt [] k h = cc
  length-delete-lt ((i, w) ∷ m) k h = ground (arith, length-delete-le m k, length-delete-lt m k)

  pub delete_absent : (m : Dict V) (k : String) → get m k ≡ none → delete m k ≡ m
  unfolding delete get
  delete_absent [] k h = refl
  delete_absent ((i, w) ∷ m) k h = ground (arith, delete_absent m k)

  pub length-keep-le : (p : V → Bool) (m : Dict V) → length (keep p m) ≤ length m
  unfolding keep
  length-keep-le p [] = omega arith
  length-keep-le p ((i, w) ∷ m) = ground (arith, length-keep-le p m)

  pub length-keep : (p : V → Bool) (m : Dict V) → length (keep p m) + dropped p m ≡ length m
  unfolding keep dropped
  length-keep p [] = omega arith
  length-keep p ((i, w) ∷ m) = ground (arith, length-keep p m)
