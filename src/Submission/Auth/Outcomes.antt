-- ===== src/Submission/Auth/Outcomes.antt =====
-- What the end of a lookup does to the window that the attempt was counted in.
use bunmail.Prelude.{
  ℕ, ◌+◌, ◌-◌, ◌≤◌, ◌<◌, ◌≡◌, inl, inr, refl, String, false, none, some, arith, str_eq, Bool-cases,
  Option-cases,
}
use bunmail.Dict.{get}
use bunmail.Shared.Window.{MemoryWindow, MemoryWindowCounter}
use bunmail.Shared.Window.Single.{get-refund, get-refund_other}
use bunmail.Shared.Facade
use bunmail.Shared.Facade.{SharedCounter, WindowBackend, StoreTag, local_tag, take_local}
use bunmail.Submission.Auth.{
  Lookup, threw, not_found, found, AuthOutcome, AuthAttempt, refund_auth_attempt, authenticate,
}
use bunmail.Submission.Auth.Steps.{is_invalid, in_memory}

module _ {B : Type 0} (ops : WindowBackend B) (bucket_of : String → String)
    (lookup : String → Lookup) (max window_sec g : ℕ) where
  -- The window that an outcome leaves, where the attempt was counted in `e`.
  abbrev pub Leaves : MemoryWindow → String → SharedCounter B × AuthOutcome → Type 0
  Leaves e bucket (s, outcome) =
      (e' : MemoryWindow) × (get s.local.entries bucket ≡ some e')
      × (e'.expires_at ≡ e.expires_at)
      × (e'.id ≡ e.id)
      × (e'.count ≤ e.count)
      × (is_invalid outcome + (e.count - 1) ≤ e'.count)

  module _ (c : MemoryWindowCounter) (e : MemoryWindow) (attempt : AuthAttempt) (later : ℕ)
      (here : get c.entries attempt.bucket ≡ some e) (tagged : attempt.tag ≡ local_tag)
      (ticket : get attempt.windows attempt.bucket ≡ some e.id) (lives : later < e.expires_at)
      (counted : 0 < e.count) where
    refunded :
        get
          (refund_auth_attempt ops bucket_of (in_memory g c) (some attempt) later).local.entries
          attempt.bucket
        ≡ some (record e { count = e.count - 1 })
    unfolding refund_auth_attempt Facade.refund
    refunded = ground (arith, get-refund c attempt.bucket e later here lives)

    pub authenticate-Leaves :
        (candidate : String) (r : Lookup)
        → Leaves e attempt.bucket
            (authenticate ops bucket_of (in_memory g c) (some attempt) candidate r later)
    unfolding authenticate
    authenticate-Leaves candidate threw = elim (Bool-cases (str_eq candidate "")) [
      | inl empty ↦ rw empty (e, here, refl, refl, omega arith, omega arith)
      | inr full ↦
          rw full (record e { count = e.count - 1 }, refunded, refl, refl, omega arith, omega arith)
    ]
    authenticate-Leaves candidate not_found = elim (Bool-cases (str_eq candidate "")) [
      | inl empty ↦ rw empty (e, here, refl, refl, omega arith, omega arith)
      | inr full ↦ rw full (e, here, refl, refl, omega arith, omega arith)
    ]
    authenticate-Leaves candidate (found key) = elim (Bool-cases (str_eq candidate "")) [
      | inl empty ↦ rw empty (e, here, refl, refl, omega arith, omega arith)
      | inr full ↦ rw full (elim (Bool-cases key.is_active) [
        | inl active ↦
            rw active
              (record e { count = e.count - 1 }, refunded, refl, refl, omega arith, omega arith)
        | inr revoked ↦ rw revoked (e, here, refl, refl, omega arith, omega arith)
      ])
    ]

  -- The lookup of an attempt of another bucket ends, or of one that was not counted.
  refund-other :
      (c : MemoryWindowCounter) (attempt : AuthAttempt) (key : String) (at : ℕ)
      → str_eq attempt.bucket key ≡ false
      → get (refund_auth_attempt ops bucket_of (in_memory g c) (some attempt) at).local.entries key
        ≡ get c.entries key
  unfolding refund_auth_attempt Facade.refund
  refund-other c attempt key at other = elim (Option-cases (get attempt.windows attempt.bucket)) [
    | inl e ↦ ground (arith, e)
    | inr (id, e) ↦ ground (arith, e, get-refund_other c attempt.bucket key id at other)
  ]

  pub authenticate-other :
      (c : MemoryWindowCounter) (attempt : AuthAttempt) (key candidate : String) (r : Lookup)
      (at : ℕ)
      → str_eq attempt.bucket key ≡ false
      → get
          (authenticate ops bucket_of (in_memory g c) (some attempt) candidate r at).0.local.entries
          key
        ≡ get c.entries key
  unfolding authenticate
  authenticate-other c attempt key candidate r at other =
      ground (arith, refund-other c attempt key at other)

  pub authenticate-uncounted :
      (c : MemoryWindowCounter) (candidate : String) (r : Lookup) (at : ℕ)
      → (authenticate ops bucket_of (in_memory g c) none candidate r at).0.local ≡ c
  unfolding authenticate refund_auth_attempt
  authenticate-uncounted c candidate r at = ground arith
