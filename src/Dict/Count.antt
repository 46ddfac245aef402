-- ===== src/Dict/Count.antt =====
-- How many entries of a map satisfy a test.
use bunmail.Prelude.{
  ℕ, suc, ◌+◌, ◌≡◌, refl, String, Bool, [], ◌∷◌, none, some, if◌then◌else◌, eq_iff, arith,
}
use bunmail.Dict.Defs.{Dict, get, set, delete, Distinct}

module _ {ℓ} {V : Type ℓ} (p : V → Bool) where
  unfoldable pub count : Dict V → ℕ
  count [] = 0
  count ((k, v) ∷ m) = if p v then suc (count m) else count m

  pub count-set :
      (m : Dict V) (k : String) (v w : V)
      → get m k ≡ some v
      → count (set m k w) + (if p v then 1 else 0) ≡ count m + (if p w then 1 else 0)
  unfolding count get set
  count-set [] k v w h = cc
  count-set ((j, u) ∷ m) k v w h = ground (arith, count-set m k v w)

  count-delete_none : (m : Dict V) (k : String) → get m k ≡ none → count (delete m k) ≡ count m
  unfolding count get delete
  count-delete_none [] k h = refl
  count-delete_none ((j, u) ∷ m) k h = ground (arith, count-delete_none m k)

  pub count-delete :
      (m : Dict V) (k : String) (v : V)
      → Distinct m
      → get m k ≡ some v
      → count (delete m k) + (if p v then 1 else 0) ≡ count m
  unfolding count get delete
  count-delete [] k v d h = cc
  count-delete ((j, u) ∷ m) k v (new, d) h =
      ground (arith, eq_iff j k, count-delete m k v d, count-delete_none m j new)
