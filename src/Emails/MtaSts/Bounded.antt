-- ===== src/Emails/MtaSts/Bounded.antt =====
-- A bounded map keeps its limit, and the newest entry.
use bunmail.Prelude.{
  ℕ, suc, ◌≤◌, ◌≡◌, refl, ap, ◌∙◌, String, false, [], ◌∷◌, ◌++◌, none, some, ltb, str_eq, eq_refl,
  length, arith, Bool-cases, inl, inr,
}
use bunmail.Dict.{Dict, get, set, delete, get-delete_self}
use bunmail.Emails.MtaSts.{shrink, bounded}

module _ {ℓ} {V : Type ℓ} where
  length-shrink-le : (limit : ℕ) (m : Dict V) → length (shrink limit m) ≤ limit
  unfolding shrink
  length-shrink-le limit [] = omega arith
  length-shrink-le limit (e ∷ m) = ground (arith, length-shrink-le limit m)

  set_absent : (m : Dict V) (k : String) (v : V) → get m k ≡ none → set m k v ≡ m ++ ((k, v) ∷ [])
  unfolding set get
  set_absent [] k v h = refl
  set_absent ((j, w) ∷ m) k v h = elim (Bool-cases (str_eq j k)) [
    | inl t ↦ absurd (let found : some w ≡ none = rw t at h in cc)
    | inr f ↦ rw f (ap (◌∷◌ (j, w)) (set_absent m k v (rw f at h)))
  ]

  get-last :
      (m : Dict V) (k : String) (v : V) → get m k ≡ none → get (m ++ ((k, v) ∷ [])) k ≡ some v
  unfolding get
  get-last [] k v h = rw (eq_refl k) refl
  get-last ((j, w) ∷ m) k v h = elim (Bool-cases (str_eq j k)) [
    | inl t ↦ absurd (let found : some w ≡ none = rw t at h in cc)
    | inr f ↦ rw f (get-last m k v (rw f at h))
  ]

  get-shrink_last :
      (limit : ℕ) (m : Dict V) (k : String) (v : V)
      → 1 ≤ limit
      → get m k ≡ none
      → get (shrink limit (m ++ ((k, v) ∷ []))) k ≡ some v
  unfolding shrink get
  get-shrink_last limit [] k v room h =
      let fits : ltb limit 1 ≡ false = ground arith in rw (fits, eq_refl k) refl
  get-shrink_last limit ((j, w) ∷ m) k v room h = elim (Bool-cases (str_eq j k)) [
    | inl t ↦ absurd (let found : some w ≡ none = rw t at h in cc)
    | inr f ↦ elim (Bool-cases (ltb limit (suc (length (m ++ ((k, v) ∷ [])))))) [
      | inl long ↦ rw long (get-shrink_last limit m k v room (rw f at h))
      | inr fits ↦ rw (fits, f) (get-last m k v (rw f at h))
    ]
  ]

  pub length-bounded-le :
      (m : Dict V) (k : String) (limit : ℕ) (v : V) → length (bounded m k limit v) ≤ limit
  unfolding bounded
  length-bounded-le m k limit v = length-shrink-le limit (set (delete m k) k v)

  pub get-bounded_self :
      (m : Dict V) (k : String) (limit : ℕ) (v : V)
      → 1 ≤ limit
      → get (bounded m k limit v) k ≡ some v
  unfolding bounded
  get-bounded_self m k limit v room =
      let absent = get-delete_self m k in
      ap (λ n. get (shrink limit n) k) (set_absent (delete m k) k v absent)
      ∙ get-shrink_last limit (delete m k) k v room absent
