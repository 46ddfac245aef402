-- ===== src/Webhooks/Delivery/Requests.antt =====
-- Claims and recorded outcomes keep the count of requests.
use bunmail.Prelude.{
  ℕ, ◌+◌, ◌≡◌, refl, sym, subst, String, List, [], ◌∷◌, Option, none, some, if◌then◌else◌, str_eq,
  eq_iff, eq_refl, arith, Bool-cases, inl, inr,
}
use bunmail.Dict.{get, set, get-set, Distinct, set-Distinct}
use bunmail.Webhooks.Schedule.{next_attempt_at}
use bunmail.Webhooks.Delivery.{
  Delivery, Deliveries, Hooks, settle, claimed_by, claim_rows, claim_due, AttemptOutcome, recorded,
  record_found, record_attempt, failed_attempt,
}
use bunmail.Webhooks.Delivery.Pick.{DeliveryScan, fair_due_delivery_ids, claim_due_deliveries}
use bunmail.Webhooks.Delivery.Counts.{
  Counts, CountsIn, AllCount, tail-AllCount, AtMostFive, own, after, requests-own,
  requests-after_absent, own-Counts, logged-append,
}
use bunmail.Webhooks.Delivery.Log.{DeliveryEvent, requests, newest_prior, logged, Outbox}

pub recount :
    (found : Option Delivery) (sent' sent : ℕ) (newest' newest : Option ℕ)
    → sent' ≡ sent
    → newest' ≡ newest
    → Counts sent newest found
    → Counts sent' newest' found
recount found sent' sent newest' newest e f h =
    subst (λ s. Counts s newest' found) (sym e) (subst (λ n. Counts sent n found) (sym f) h)

module _ (hooks : Hooks) (now : ℕ) (ids : List String) where
  get-claim_rows_none :
      (rows : Deliveries) (id : String)
      → get rows id ≡ none
      → get (claim_rows hooks now ids rows) id ≡ none
  unfolding claim_rows get
  get-claim_rows_none [] id h = refl
  get-claim_rows_none ((j, r) ∷ rows) id h = elim (Bool-cases (str_eq j id)) [
    | inl t ↦ absurd (let found : some r ≡ none = rw t at h in cc)
    | inr f ↦ rw f (get-claim_rows_none rows id (rw f at h))
  ]

  claim_rows-Distinct :
      (rows : Deliveries) → Distinct rows → Distinct (claim_rows hooks now ids rows)
  unfolding claim_rows
  claim_rows-Distinct [] d = tt
  claim_rows-Distinct ((j, r) ∷ rows) (new, d) =
      (get-claim_rows_none rows j new, claim_rows-Distinct rows d)

  claim_rows-AllCount :
      (rows : Deliveries) (log : List DeliveryEvent)
      → Distinct rows
      → AllCount log rows
      → AtMostFive log
      → AllCount (after hooks now ids rows log) (claim_rows hooks now ids rows)
        × AtMostFive (after hooks now ids rows log)
  unfolding claim_rows claim_due get
  claim_rows-AllCount [] log d h five = (h, five)
  claim_rows-AllCount ((j, r) ∷ rows) log (new, d) h five =
      let rest = after hooks now ids rows log in
      let (counted, five') =
        claim_rows-AllCount rows log d (tail-AllCount j r rows log new h) five in
      let (sent, newest) = requests-after_absent hooks now ids rows j log new in
      let before : CountsIn log j (some r) = rw (eq_refl j) at (h j) in
      let there : CountsIn rest j (some r) =
        recount (some r) (requests j rest) (requests j log) (newest_prior j rest)
          (newest_prior j log) sent newest before in
      let (mine, at_most) = own-Counts hooks now ids j r rest there five' in
      let split = logged-append (own hooks now ids j r) (claim_due hooks now ids rows) log in
      (
        (λ id.
            subst (λ l. CountsIn l id (get (claim_rows hooks now ids ((j, r) ∷ rows)) id))
              (sym split)
              (elim (Bool-cases (str_eq j id)) [
                | inl t ↦
                    (let e : j ≡ id = ground (arith, eq_iff j id) in
                      rw t (
                        subst
                          (λ k.
                            CountsIn (logged (own hooks now ids j r) rest) k
                              (some (if claimed_by ids j then settle hooks now r else r)))
                          e mine))
                | inr f ↦
                    (let (same, same') = requests-own hooks now ids id j r rest f in
                      let found = get (claim_rows hooks now ids rows) id in
                      let whole = logged (own hooks now ids j r) rest in
                      rw f (
                        recount found (requests id whole) (requests id rest) (newest_prior id whole)
                          (newest_prior id rest) same same' (counted id)))
              ])),
        subst AtMostFive (sym split) at_most,
      )

abbrev pub Sound : Outbox → Type 0
Sound q = Distinct q.rows × AllCount q.log q.rows × AtMostFive q.log

pub claim_due_deliveries-Sound :
    (q : Outbox) (hooks : Hooks) (scan : DeliveryScan) (n : ℕ)
    → Sound q
    → Sound (record {
      rows = (claim_due_deliveries q.rows hooks scan n).0;
      log = logged (claim_due_deliveries q.rows hooks scan n).1 q.log;
    })
unfolding claim_due_deliveries
claim_due_deliveries-Sound q hooks scan n (d, h, five) =
    let ids = fair_due_delivery_ids scan n q.rows hooks in
    let (counted, at_most) = claim_rows-AllCount hooks scan.now ids q.rows q.log d h five in
    (claim_rows-Distinct hooks scan.now ids q.rows d, counted, at_most)

-- A row that is set keeps the count, where its own does.
set-AllCount :
    (rows : Deliveries) (log : List DeliveryEvent) (id : String) (r : Delivery)
    → AllCount log rows
    → CountsIn log id (some r)
    → AllCount log (set rows id r)
set-AllCount rows log id r h own_count j = elim (Bool-cases (str_eq id j)) [
  | inl t ↦
      rw (get-set rows id r j, t)
        (let e : id ≡ j = ground (arith, eq_iff id j) in
          subst (λ k. CountsIn log k (some r)) e own_count)
  | inr f ↦ rw (get-set rows id r j, f) (h j)
]

recorded-attempts :
    (cut : String → String) (o : AttemptOutcome) (prior now : ℕ) (r : Delivery)
    → (recorded cut o prior now r).attempts ≡ prior + 1
recorded-attempts cut o prior now r = elim (Bool-cases o.ok) [
  | inl t ↦ rw t refl
  | inr f ↦ rw f (failed_attempts (next_attempt_at (prior + 1) now))
]
  where
    failed_attempts :
        (next : Option ℕ) → (failed_attempt cut o (prior + 1) now r next).attempts ≡ prior + 1
    failed_attempts none = refl
    failed_attempts (some at) = refl

pub record_attempt-Sound :
    (q : Outbox) (cut : String → String) (id : String) (o : AttemptOutcome) (prior now : ℕ)
    → newest_prior id q.log ≡ some prior
    → Sound q
    → Sound (record q { rows = record_attempt cut q.rows id o prior now })
unfolding record_attempt
record_attempt-Sound q cut id o prior now newest (d, h, five) = found (get q.rows id) (h id)
  where
    found :
        (f : Option Delivery)
        → CountsIn q.log id f
        → Sound (record q { rows = record_found cut q.rows id o prior now f })
    found none c = (d, h, five)
    found (some r) (sent, bound, last) = (
      set-Distinct q.rows id (recorded cut o prior now r) d,
      set-AllCount q.rows q.log id (recorded cut o prior now r) h (
        rw (recorded-attempts cut o prior now r) (omega (arith, last prior newest)),
        rw (recorded-attempts cut o prior now r) (omega (arith, last prior newest)),
        (λ p e.
            rw (recorded-attempts cut o prior now r) (omega (arith, last prior newest, last p e))),
      ),
      five,
    )
