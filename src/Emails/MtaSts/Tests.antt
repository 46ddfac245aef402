-- ===== src/Emails/MtaSts/Tests.antt =====
-- Runs of the discovery.
use bunmail.Prelude.{◌≡◌, ◌↔◌, ◌++◌, refl, true, false, [], ◌∷◌, some, arith}
use bunmail.Dict.{get}
use bunmail.Emails.MtaSts.{
  MtaStsPolicy, MtaStsPolicyCache, CachedPolicy, enforce, fetch_error, fetch_failed, txt_id,
  discover, set_failure,
}
use bunmail.Dns.Bytes.{Bytes}
use bunmail.Emails.MtaSts.Match.{OneLabel, mx_matches_pattern, mx_matches_pattern_iff}
use bunmail.Emails.MtaSts.Kept.{KeptOrReplaced, discover-Kept}
use bunmail.Emails.MtaSts.Waits.{discover_waits}

abbrev policy : MtaStsPolicy
policy = record { mode = enforce; mx = "mx.test" ∷ []; max_age = 60 }

abbrev cached : CachedPolicy
cached = record { id = "1"; policy = policy; expires_at = 60000; warned = false }

abbrev cache : MtaStsPolicyCache
cache = record { policies = ("x.test", cached) ∷ []; failures = []; limit = 3 }

-- The policy of another domain has pushed this one out of the cache.
abbrev pushed_out : MtaStsPolicyCache
pushed_out = record { policies = ("y.test", cached) ∷ []; failures = []; limit = 1 }

-- Another policy is announced, its fetch fails, and the old one stays in force.
discover-Kept_example :
    KeptOrReplaced cached "x.test" cache pushed_out
      (txt_id "2")
      (fetch_failed fetch_error)
      (discover cache pushed_out "x.test" (txt_id "2") 59999 59999 (fetch_failed fetch_error))
unfolding get
discover-Kept_example =
    discover-Kept cache pushed_out "x.test" cached (txt_id "2") 59999 59999
      (fetch_failed fetch_error) refl (omega arith)

discover_waits_example :
    ((discover
        (set_failure cache "x.test" "2" 0 fetch_error)
        cache
        "x.test"
        (txt_id "2")
        299999
        300000
        (fetch_failed fetch_error)).1.fetches
      ≡ false)
    × ((discover
          (set_failure cache "x.test" "2" 0 fetch_error)
          cache
          "x.test"
          (txt_id "2")
          299999
          300000
          (fetch_failed fetch_error)).1.failure
        ≡ some fetch_error)
unfolding get set_failure
discover_waits_example =
    discover_waits cache (set_failure cache "x.test" "2" 0 fetch_error) cache "x.test" "2"
      fetch_error 0 299999 (omega arith) (omega arith) refl 300000 (fetch_failed fetch_error) refl

-- "*.b" and "a.b".
mx_matches_pattern_iff_example :
    (mx_matches_pattern (λ s. s) (λ s. s) (97 ∷ 46 ∷ 98 ∷ []) (42 ∷ 46 ∷ 98 ∷ []) ≡ true)
    ↔ ((label : Bytes) × (97 ∷ 46 ∷ 98 ∷ [] ≡ label ++ (46 ∷ 98 ∷ [])) × OneLabel label)
mx_matches_pattern_iff_example =
    mx_matches_pattern_iff (λ s. s) (λ s. s) (97 ∷ 46 ∷ 98 ∷ []) (42 ∷ 46 ∷ 98 ∷ []) (98 ∷ []) refl

-- The zone itself is not covered.
zone_alone : mx_matches_pattern (λ s. s) (λ s. s) (98 ∷ []) (42 ∷ 46 ∷ 98 ∷ []) ≡ false
unfolding mx_matches_pattern
zone_alone = refl
