-- ===== src/Emails/MtaSts/Kept.antt =====
-- A policy that has not expired stays in force when a lookup or a fetch fails.
use bunmail.Prelude.{
  ℕ, ◌<◌, ◌≡◌, refl, String, Bool, false, Option, none, some, leb, if◌then◌else◌, str_eq, arith,
  Bool-cases, inl, inr, ◌⊎◌, ap, sym, ◌∙◌, subst,
}
use bunmail.Dict.{get}
use bunmail.Emails.MtaSts.{
  MtaStsPolicy, MtaStsPolicyCache, CachedPolicy, MtaStsDiscovery, TxtAnswer, txt_id, txt_none,
  txt_error, FetchResult, fetched, fetch_failed, active, get_found, get_policy, set_failure,
  recent_failure, unless_recent, on_answer, discover, MtaStsFailureKind,
}

-- The policy stays in force, and what the cache holds for the domain is left as it was (after a
-- fetch: as it was when the fetch ended), or another policy that is announced replaces it.
abbrev pub KeptOrReplaced :
    CachedPolicy
    → String
    → MtaStsPolicyCache
    → MtaStsPolicyCache
    → TxtAnswer
    → FetchResult
    → MtaStsPolicyCache × MtaStsDiscovery
    → Type 0
KeptOrReplaced e domain before after txt result (c, d) =
    ((d.policy ≡ some (active e))
      × (get c.policies domain ≡ get (if d.fetches then after else before).policies domain))
    ⊎ ((id : String) × (policy : MtaStsPolicy) × (txt ≡ txt_id id)
        × (str_eq e.id id ≡ false)
        × (result ≡ fetched policy)
        × (d.policy ≡ some (record { id = id; policy = policy })))

module _ (c after : MtaStsPolicyCache) (domain : String) (e : CachedPolicy) (now later : ℕ) where
  unless_recent-Kept :
      (id : String) (result : FetchResult) (recent : Option MtaStsFailureKind)
      → str_eq e.id id ≡ false
      → KeptOrReplaced e domain c after
          (txt_id id)
          result
          (unless_recent c after (some e) domain id later result recent)
  unfolding set_failure
  unless_recent-Kept id result (some kind) other = inl (refl, refl)
  unless_recent-Kept id (fetched policy) none other = inr (id, policy, refl, other, refl, refl)
  unless_recent-Kept id (fetch_failed kind) none other = inl (refl, refl)

  on_answer-Kept :
      (txt : TxtAnswer) (result : FetchResult)
      → KeptOrReplaced e domain c after txt result
          (on_answer c after (some e) domain txt now later result)
  on_answer-Kept txt_error result = inl (refl, refl)
  on_answer-Kept txt_none result = inl (refl, refl)
  on_answer-Kept (txt_id id) result = elim (Bool-cases (str_eq e.id id)) [
    | inl t ↦ rw t (inl (refl, refl))
    | inr f ↦ rw f (unless_recent-Kept id result (recent_failure c domain id now) f)
  ]

-- While the policy that is cached for a domain when its TXT answer arrives has not expired, no
-- answer (a failed lookup, a missing record, the same id, another id) and no failed or invalid fetch
-- takes it out of force: the discovery gives just that policy, whatever other discoveries do to the
-- cache during the fetch, and itself leaves what the cache holds for the domain as it finds it, at
-- the answer or, after a fetch, at the fetch's end. The only exception is a policy that is announced
-- under another id and fetched, which the discovery gives instead.
pub discover-Kept :
    (c after : MtaStsPolicyCache) (domain : String) (e : CachedPolicy) (txt : TxtAnswer)
    (now later : ℕ) (result : FetchResult)
    → get c.policies domain ≡ some e
    → now < e.expires_at
    → KeptOrReplaced e domain c after txt result (discover c after domain txt now later result)
unfolding discover get_policy
discover-Kept c after domain e txt now later result stored alive =
    let fresh : leb e.expires_at now ≡ false = ground arith in
    let found : get_policy c domain now ≡ (c, some e) =
      ap (get_found c domain now) stored
      ∙ ap
          (λ (b : Bool).
            if b
            then (record c { policies = bunmail.Dict.delete c.policies domain }, none)
            else (c, some e))
          fresh in
    subst
      (λ (u : MtaStsPolicyCache × Option CachedPolicy).
        KeptOrReplaced e domain c after txt result
          (on_answer u.0 after u.1 domain txt now later result))
      (sym found) (on_answer-Kept c after domain e now later txt result)
