-- ===== src/Emails/MtaSts.antt =====
-- src/modules/emails/services/mta-sts-cache.ts and mta-sts.ts: the cache of recipients' policies, and
-- which policy is in force on an attempt. The TXT answer, the fetch's result and the clock, which is
-- read before the fetch and after it, are arguments.
pub mod Bounded
pub mod Kept
pub mod Waits
pub mod Match
mod Tests
use bunmail.Prelude.{
  ℕ, suc, ◌+◌, ◌*◌, String, Bool, true, false, not, ◌&&◌, ◌||◌, List, [], ◌∷◌, Option, none, some,
  leb, ltb, if◌then◌else◌, str_eq, length,
}
use bunmail.Dict.{Dict, get, set, delete}

pub data MtaStsMode : Type 0 where
  enforce testing no_mode : MtaStsMode

pub record MtaStsPolicy : Type 0 where
  pub mode : MtaStsMode
  pub mx : List String
  pub max_age : ℕ

pub data MtaStsFailureKind : Type 0 where
  fetch_error webpki_invalid policy_invalid : MtaStsFailureKind

pub record CachedPolicy : Type 0 where
  pub id : String
  pub policy : MtaStsPolicy
  pub expires_at : ℕ
  pub warned : Bool

pub record PolicyFailure : Type 0 where
  pub id : String
  pub retry_at : ℕ
  pub kind : MtaStsFailureKind

pub record MtaStsPolicyCache : Type 0 where
  pub policies : Dict CachedPolicy
  pub failures : Dict PolicyFailure
  pub limit : ℕ

abbrev pub fetch_retry_after_ms : ℕ
fetch_retry_after_ms = 5 * 60000

-- `while (map.size > limit) map.delete(oldest)`: the oldest key is the first, and stands once.
unfoldable pub shrink {ℓ} : {V : Type ℓ} → ℕ → Dict V → Dict V
shrink limit [] = []
shrink limit (e ∷ m) =
    let rest = shrink limit m in if ltb limit (suc (length m)) then rest else e ∷ m

unfoldable pub bounded {ℓ} : {V : Type ℓ} → Dict V → String → ℕ → V → Dict V
unfolding shrink
bounded m key limit value = shrink limit (set (delete m key) key value)

-- `get` also deletes the entry when it is over.
abbrev pub get_found :
    MtaStsPolicyCache → String → ℕ → Option CachedPolicy → MtaStsPolicyCache × Option CachedPolicy
get_found c domain now none = (c, none)
get_found c domain now (some e) =
    if leb e.expires_at now
    then (record c { policies = delete c.policies domain }, none)
    else (c, some e)

unfoldable pub get_policy : MtaStsPolicyCache → String → ℕ → MtaStsPolicyCache × Option CachedPolicy
get_policy c domain now = get_found c domain now (get c.policies domain)

unfoldable pub set_policy :
    MtaStsPolicyCache → String → String → MtaStsPolicy → ℕ → MtaStsPolicyCache
unfolding bounded
set_policy c domain id policy now = record c {
  failures = delete c.failures domain;
  policies = bounded c.policies domain c.limit (record {
    id = id;
    policy = policy;
    expires_at = now + policy.max_age * 1000;
    warned = false;
  });
}

unfoldable pub set_failure :
    MtaStsPolicyCache → String → String → ℕ → MtaStsFailureKind → MtaStsPolicyCache
unfolding bounded
set_failure c domain id now kind = record c {
  failures =
      bounded c.failures domain c.limit
        (record { id = id; retry_at = now + fetch_retry_after_ms; kind = kind });
}

abbrev pub recent_of : String → ℕ → Option PolicyFailure → Option MtaStsFailureKind
recent_of id now none = none
recent_of id now (some f) = if str_eq f.id id && ltb now f.retry_at then some f.kind else none

unfoldable pub recent_failure : MtaStsPolicyCache → String → String → ℕ → Option MtaStsFailureKind
recent_failure c domain id now = recent_of id now (get c.failures domain)

abbrev pub warn_found :
    MtaStsPolicyCache → String → String → Option CachedPolicy → MtaStsPolicyCache × Bool
warn_found c domain id none = (c, false)
warn_found c domain id (some e) =
    if not (str_eq e.id id) || e.warned
    then (c, false)
    else (record c { policies = set c.policies domain (record e { warned = true }) }, true)

unfoldable pub first_warning : MtaStsPolicyCache → String → String → MtaStsPolicyCache × Bool
first_warning c domain id = warn_found c domain id (get c.policies domain)

pub record ActiveMtaStsPolicy : Type 0 where
  pub id : String
  pub policy : MtaStsPolicy

pub data TxtAnswer : Type 0 where
  txt_id : String → TxtAnswer
  txt_none txt_error : TxtAnswer

pub data FetchResult : Type 0 where
  fetched : MtaStsPolicy → FetchResult
  fetch_failed : MtaStsFailureKind → FetchResult

-- With the policy and the reason of a failure: whether a fetch was made.
pub record MtaStsDiscovery : Type 0 where
  pub policy : Option ActiveMtaStsPolicy
  pub failure : Option MtaStsFailureKind
  pub fetches : Bool

abbrev pub active : CachedPolicy → ActiveMtaStsPolicy
active e = record { id = e.id; policy = e.policy }

abbrev pub kept_of : Option CachedPolicy → Option ActiveMtaStsPolicy
kept_of none = none
kept_of (some e) = some (active e)

abbrev pub has_id : Option CachedPolicy → String → Bool
has_id none id = false
has_id (some e) id = str_eq e.id id

abbrev pub without_fetch :
    MtaStsPolicyCache
    → Option CachedPolicy
    → Option MtaStsFailureKind
    → MtaStsPolicyCache × MtaStsDiscovery
without_fetch c cached failure =
    (c, record { policy = kept_of cached; failure = failure; fetches = false })

abbrev pub with_fetch :
    MtaStsPolicyCache
    → Option CachedPolicy
    → String
    → String
    → ℕ
    → FetchResult
    → MtaStsPolicyCache × MtaStsDiscovery
with_fetch c cached domain id later (fetched policy) = (
  set_policy c domain id policy later,
  record { policy = some (record { id = id; policy = policy }); failure = none; fetches = true },
)
with_fetch c cached domain id later (fetch_failed kind) = (
  set_failure c domain id later kind,
  record { policy = kept_of cached; failure = some kind; fetches = true },
)

-- `after` is the cache when the fetch ends: other discoveries may have changed it meanwhile.
abbrev pub unless_recent :
    MtaStsPolicyCache
    → MtaStsPolicyCache
    → Option CachedPolicy
    → String
    → String
    → ℕ
    → FetchResult
    → Option MtaStsFailureKind
    → MtaStsPolicyCache × MtaStsDiscovery
unless_recent c after cached domain id later result (some kind) = without_fetch c cached (some kind)
unless_recent c after cached domain id later result none =
    with_fetch after cached domain id later result

abbrev pub on_answer :
    MtaStsPolicyCache
    → MtaStsPolicyCache
    → Option CachedPolicy
    → String
    → TxtAnswer
    → ℕ
    → ℕ
    → FetchResult
    → MtaStsPolicyCache × MtaStsDiscovery
on_answer c after cached domain txt_error now later result = without_fetch c cached none
on_answer c after cached domain txt_none now later result = without_fetch c cached none
on_answer c after cached domain (txt_id id) now later result =
    if has_id cached id
    then without_fetch c cached none
    else unless_recent c after cached domain id later result (recent_failure c domain id now)

-- From the TXT answer on, with the cache then and the one that a fetch finds when it ends.
unfoldable pub discover :
    MtaStsPolicyCache
    → MtaStsPolicyCache
    → String
    → TxtAnswer
    → ℕ
    → ℕ
    → FetchResult
    → MtaStsPolicyCache × MtaStsDiscovery
unfolding get_policy
discover c after domain txt now later result =
    let (c', cached) = get_policy c domain now in
    on_answer c' after cached domain txt now later result
