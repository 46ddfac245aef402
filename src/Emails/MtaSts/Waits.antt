-- ===== src/Emails/MtaSts/Waits.antt =====
-- A failed fetch is not repeated at once, and the cache stays within its limit.
use bunmail.Prelude.{
  ℕ, ◌+◌, ◌≤◌, ◌<◌, ◌≡◌, refl, String, true, false, Option, none, some, leb, ltb, eq_refl, arith,
  Bool-cases, inl, inr, ap, ◌∙◌,
}
use bunmail.Dict.{get, delete}
use bunmail.Emails.MtaSts.{
  MtaStsPolicyCache, CachedPolicy, PolicyFailure, MtaStsDiscovery, txt_id, FetchResult, get_found,
  get_policy, set_failure, recent_of, recent_failure, on_answer, discover, MtaStsFailureKind,
  has_id, fetch_retry_after_ms,
}
use bunmail.Emails.MtaSts.Bounded.{get-bounded_self}

-- The failure that a failed fetch leaves is the newest, so it is there.
failure_recorded :
    (c : MtaStsPolicyCache) (domain id : String) (kind : MtaStsFailureKind) (failed_at now : ℕ)
    → 1 ≤ c.limit
    → now < failed_at + fetch_retry_after_ms
    → recent_of id now (get (set_failure c domain id failed_at kind).failures domain) ≡ some kind
unfolding set_failure
failure_recorded c domain id kind failed_at now room soon =
    let f : PolicyFailure = record {
      id = id;
      retry_at = failed_at + fetch_retry_after_ms;
      kind = kind;
    } in
    let early : ltb now (failed_at + fetch_retry_after_ms) ≡ true = ground arith in
    ap (recent_of id now) (get-bounded_self c.failures domain c.limit f room)
    ∙ rw (eq_refl id, early) refl

module _ (failed c after : MtaStsPolicyCache) (domain id : String) (kind : MtaStsFailureKind)
    (failed_at now : ℕ) (room : 1 ≤ failed.limit) (soon : now < failed_at + fetch_retry_after_ms)
    (same : get c.failures domain
      ≡ get (set_failure failed domain id failed_at kind).failures domain) where
  -- Within five minutes after a fetch under an announced id failed, a discovery that finds the same
  -- id announced, with no policy cached under it, makes no fetch and reports the same failure, in
  -- any cache where the domain's failure is still the one that was then recorded: no failure under
  -- another id has replaced it, and none of another domain has pushed it past the limit, which is at
  -- least one.
  pub discover_waits :
      (later : ℕ) (result : FetchResult)
      → has_id (get c.policies domain) id ≡ false
      → ((discover c after domain (txt_id id) now later result).1.fetches ≡ false)
        × ((discover c after domain (txt_id id) now later result).1.failure ≡ some kind)
  unfolding discover get_policy recent_failure
  discover_waits later result other = found (get c.policies domain) other
    where
      recent : recent_of id now (get c.failures domain) ≡ some kind
      recent =
          ap (recent_of id now) same
          ∙ failure_recorded failed domain id kind failed_at now room soon

      Quiet : MtaStsPolicyCache × MtaStsDiscovery → Type 0
      Quiet u = (u.1.fetches ≡ false) × (u.1.failure ≡ some kind)

      answered :
          (policies : MtaStsPolicyCache) (cached : Option CachedPolicy)
          → recent_failure policies domain id now ≡ some kind
          → has_id cached id ≡ false
          → Quiet (on_answer policies after cached domain (txt_id id) now later result)
      answered policies cached r other = rw (other, r) (refl, refl)

      found :
          (f : Option CachedPolicy)
          → has_id f id ≡ false
          → let u = get_found c domain now f in
            Quiet (on_answer u.0 after u.1 domain (txt_id id) now later result)
      found none other = answered c none recent refl
      found (some e) other = elim (Bool-cases (leb e.expires_at now)) [
        | inl over ↦
            rw over (answered (record c { policies = delete c.policies domain }) none recent refl)
        | inr fresh ↦ rw fresh (answered c (some e) recent other)
      ]
