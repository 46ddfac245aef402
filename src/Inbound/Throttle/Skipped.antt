-- ===== src/Inbound/Throttle/Skipped.antt =====
-- No message that is held back goes unreported.
use bunmail.Prelude.{
  ℕ, ◌+◌, ◌≡◌, String, Bool, true, not, leb, List, [], ◌∷◌, Option, none, some, if◌then◌else◌,
  arith, str_eq, eq_iff, Option-cases, inl, inr,
}
use bunmail.Dict.{
  Dict, get, set, get-set, get-delete, Distinct, set-Distinct, delete-Distinct, keep-Distinct,
  get-keep, option_filter,
}
use bunmail.Inbound.Throttle.{
  NotifyThrottle, NotifyThrottleDecision, SkippedNotifications, address, notify, skip, is_spent,
  record_skipped, check_domain, check, prune, notify_throttle_max, skipped_retention_ms,
}

-- The messages skipped for `key` that no notification has reported yet.
abbrev pub pending_count : Option SkippedNotifications → ℕ
pending_count none = 0
pending_count (some p) = p.count

abbrev pub pending : NotifyThrottle → String → ℕ
pending t key = pending_count (get t.skipped key)

-- What a decision reports, and what it skips.
abbrev pub reported : NotifyThrottleDecision → ℕ
reported (notify p) = pending_count p
reported (skip b first) = 0

abbrev pub skips : NotifyThrottleDecision → ℕ
skips (notify p) = 0
skips (skip b first) = 1

record_skipped-pending :
    (m : Dict SkippedNotifications) (key j : String) (now : ℕ)
    → pending_count (get (record_skipped m key now) j)
      ≡ pending_count (get m j) + (if str_eq key j then 1 else 0)
unfolding record_skipped
record_skipped-pending m key j now = elim (Option-cases (get m key)) [
  | inl e ↦ ground (arith, e, get-set m key (record { count = 1; since = now }) j, eq_iff key j)
  | inr (p, e) ↦ ground (arith, e, get-set m key (record p { count = p.count + 1 }) j, eq_iff key j)
]

record_skipped-Distinct :
    (m : Dict SkippedNotifications) (key : String) (now : ℕ)
    → Distinct m
    → Distinct (record_skipped m key now)
unfolding record_skipped
record_skipped-Distinct m key now d =
    elim (get m key)
      as (λ o. Distinct (elim o [
        | none ↦ set m key (record { count = 1; since = now })
        | some pending ↦ set m key (record pending { count = pending.count + 1 })
      ])) [ none ↦ set-Distinct m key _ d | some p ↦ set-Distinct m key _ d ]

module _ (to_lower_case : String → String) where
  check-pending :
      (t : NotifyThrottle) (recipient j : String) (now : ℕ)
      → let (t', decision) = check to_lower_case t recipient now in
        (if str_eq (to_lower_case recipient) j then reported decision else 0) + pending t' j
        ≡ pending t j + (if str_eq (to_lower_case recipient) j then skips decision else 0)
  unfolding check check_domain
  check-pending t recipient j now =
      let key = to_lower_case recipient in
      ground (
        arith,
        record_skipped-pending t.skipped key j now,
        get-delete t.skipped key j,
        eq_iff key j,
      )

  -- What happens to the throttle, in its order: a message for a recipient, at a time, or the
  -- receiver's prune.
  pub data ThrottleEvent : Type 0 where
    arrives : String → ℕ → ThrottleEvent
    prunes : ℕ → ThrottleEvent

  -- What one event leaves, and for `key`: what it reports, what it skips and what it drops. A prune
  -- drops what has been pending for a day.
  abbrev pub event_state : NotifyThrottle → ThrottleEvent → NotifyThrottle
  event_state t (arrives recipient now) = (check to_lower_case t recipient now).0
  event_state t (prunes now) = prune t now

  abbrev pub event_reported : NotifyThrottle → String → ThrottleEvent → ℕ
  event_reported t key (arrives recipient now) =
      if str_eq (to_lower_case recipient) key
      then reported (check to_lower_case t recipient now).1
      else 0
  event_reported t key (prunes now) = 0

  abbrev pub event_skipped : NotifyThrottle → String → ThrottleEvent → ℕ
  event_skipped t key (arrives recipient now) =
      if str_eq (to_lower_case recipient) key
      then skips (check to_lower_case t recipient now).1
      else 0
  event_skipped t key (prunes now) = 0

  abbrev pub stale_count : ℕ → Option SkippedNotifications → ℕ
  stale_count now none = 0
  stale_count now (some p) = if leb (p.since + 86400000) now then p.count else 0

  abbrev pub event_dropped : NotifyThrottle → String → ThrottleEvent → ℕ
  event_dropped t key (arrives recipient now) = 0
  event_dropped t key (prunes now) = stale_count now (get t.skipped key)

  abbrev pub after : NotifyThrottle → List ThrottleEvent → NotifyThrottle
  after t [] = t
  after t (e ∷ es) = after (event_state t e) es

  pub total :
      (NotifyThrottle → String → ThrottleEvent → ℕ)
      → NotifyThrottle
      → String
      → List ThrottleEvent
      → ℕ
  total f t key [] = 0
  total f t key (e ∷ es) = f t key e + total f (event_state t e) key es

  check-Distinct :
      (t : NotifyThrottle) (recipient : String) (now : ℕ)
      → Distinct t.skipped
      → Distinct (check to_lower_case t recipient now).0.skipped
  unfolding check check_domain
  check-Distinct t recipient now d =
      let key = to_lower_case recipient in
      ground (arith, record_skipped-Distinct t.skipped key now d, delete-Distinct t.skipped key d)

  event_state-Distinct :
      (t : NotifyThrottle) (e : ThrottleEvent)
      → Distinct t.skipped
      → Distinct (event_state t e).skipped
  unfolding prune
  event_state-Distinct t (arrives recipient now) d = check-Distinct t recipient now d
  event_state-Distinct t (prunes now) d = keep-Distinct _ t.skipped d

  event-pending :
      (t : NotifyThrottle) (key : String) (e : ThrottleEvent)
      → Distinct t.skipped
      → event_reported t key e + event_dropped t key e + pending (event_state t e) key
        ≡ pending t key + event_skipped t key e
  unfolding prune
  event-pending t key (arrives recipient now) d = omega (arith, check-pending t recipient key now)
  event-pending t key (prunes now) d =
      rw
        (get-keep (λ (p : SkippedNotifications). not (leb (p.since + skipped_retention_ms) now))
          t.skipped key d)
        (of_entry (get t.skipped key))
    where
      of_entry :
          (o : Option SkippedNotifications)
          → 0
              + stale_count now o
              + pending_count (
                  option_filter
                    (λ (p : SkippedNotifications). not (leb (p.since + skipped_retention_ms) now))
                    o)
            ≡ pending_count o + 0
      of_entry none = omega arith
      of_entry (some p) = ground arith

  -- Skipped messages are accounted for: over any messages and prunes, in any order and from any state
  -- that names no address twice, what notifications report for an address, what prunes drop because
  -- it has gone unreported for a day, and what is still pending are together what was pending before
  -- and has been skipped since. So nothing is lost but by a prune after a day, and nothing is reported
  -- twice.
  pub check_accounts :
      (t : NotifyThrottle) (key : String) (es : List ThrottleEvent)
      → Distinct t.skipped
      → total event_reported t key es + total event_dropped t key es + pending (after t es) key
        ≡ pending t key + total event_skipped t key es
  unfolding total
  check_accounts t key [] d = omega arith
  check_accounts t key (e ∷ es) d = omega (
    arith,
    event-pending t key e d,
    check_accounts (event_state t e) key es (event_state-Distinct t e d),
  )

  -- A message over its address's own budget spends nothing of its domain's.
  pub check_address-domains :
      (t : NotifyThrottle) (recipient : String) (now : ℕ) (first : Bool)
      → (check to_lower_case t recipient now).1 ≡ skip address first
      → ((check to_lower_case t recipient now).0.domains ≡ t.domains)
        × (is_spent t.addresses (to_lower_case recipient) now notify_throttle_max ≡ true)
  unfolding check check_domain
  check_address-domains t recipient now first h = ground arith
