-- ===== src/Dict/Defs.antt =====
-- The operations of `Map`.
use bunmail.Prelude.{
  ℕ, suc, String, Bool, true, false, List, [], ◌∷◌, Option, none, some, if◌then◌else◌, str_eq, ◌≡◌,
}

abbrev pub Dict {ℓ} : Type ℓ → Type ℓ
Dict V = List (String × V)

module _ {ℓ} {V : Type ℓ} where
  unfoldable pub get : Dict V → String → Option V
  get [] k = none
  get ((j, v) ∷ m) k = if str_eq j k then some v else get m k

  abbrev pub has : Dict V → String → Bool
  has m k = elim (get m k) [ none ↦ false | some _ ↦ true ]

  unfoldable pub set : Dict V → String → V → Dict V
  set [] k v = (k, v) ∷ []
  set ((j, w) ∷ m) k v = if str_eq j k then (j, v) ∷ m else (j, w) ∷ set m k v

  unfoldable pub delete : Dict V → String → Dict V
  delete [] k = []
  delete ((j, v) ∷ m) k = if str_eq j k then delete m k else (j, v) ∷ delete m k

  -- `for (const [k, v] of m) if (!p(v)) m.delete(k)`
  unfoldable pub keep : (V → Bool) → Dict V → Dict V
  keep p [] = []
  keep p ((j, v) ∷ m) = if p v then (j, v) ∷ keep p m else keep p m

  -- How many entries such a loop deletes.
  unfoldable pub dropped : (V → Bool) → Dict V → ℕ
  dropped p [] = 0
  dropped p ((j, v) ∷ m) = if p v then dropped p m else suc (dropped p m)

  unfoldable pub keys : Dict V → List String
  keys [] = []
  keys ((j, v) ∷ m) = j ∷ keys m

  unfoldable pub values : Dict V → List V
  values [] = []
  values ((j, v) ∷ m) = v ∷ values m

  -- No key stands twice: true of every `Map`.
  abbrev pub Distinct : Dict V → Type ℓ
  Distinct [] = Unit
  Distinct ((j, v) ∷ m) = (get m j ≡ none) × Distinct m

  -- What `get` finds, if anything, satisfies `P`.
  abbrev pub HasSome {κ} : (V → Type κ) → Option V → Type κ
  HasSome P none = Unit
  HasSome P (some v) = P v
