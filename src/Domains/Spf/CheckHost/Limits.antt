-- ===== src/Domains/Spf/CheckHost/Limits.antt =====
-- `checkHost` ends with a result, within the limits of RFC 7208.
use bunmail.Prelude.{ℕ, ◌≤◌, ◌≡◌, ◌⊎◌, inl, inr, refl, true, arith, Bool-cases, Option-cases}
use bunmail.Domains.Spf.Types.{SpfResult, SpfDnsResolver, Syntax}
use bunmail.Domains.Spf.Answers.{is_error}
use bunmail.Domains.Spf.Address.{unmapped}
use bunmail.Domains.Spf.Monad.{Evaluation, Outcome, done, thrown, stuck}
use bunmail.Domains.Spf.Evaluator.Fuel.{Settled, check_domain-Settled}
use bunmail.Domains.Spf.CheckHost.{SpfCheckInput, caller_of, start, without_dot, check_host}

-- A run that returns a result, which is an error or was found within the limits.
abbrev pub Returns : Outcome SpfResult × Evaluation → Type 0
Returns o =
    (r : SpfResult) × (ev : Evaluation) × (o ≡ (done r, ev))
    × ((is_error r ≡ true) ⊎ ((ev.lookups ≤ 10) × (ev.voids ≤ 2)))

Settled-Returns : (o : Outcome SpfResult × Evaluation) → Settled 0 o → Returns o
Settled-Returns (done r, ev) (inl e) = (r, ev, refl, inl e)
Settled-Returns (done r, ev) (inr (counted, lookups, voids)) = (r, ev, refl, inr (lookups, voids))
Settled-Returns (thrown e, ev) h = absurd h
Settled-Returns (stuck, ev) h = absurd h

-- With fuel for eleven domains, or more, the evaluation returns a result, whatever the resolver
-- answers, however the records include each other and whenever the time limit strikes: no error
-- reaches the caller, and a result that is neither "permerror" nor "temperror" was found with at
-- most ten counted terms and at most two void lookups.
pub check_host-Returns :
    (dns : SpfDnsResolver) (text : Syntax) (deadline fuel : ℕ) (input : SpfCheckInput)
    → 11 ≤ fuel
    → Returns (check_host dns text deadline fuel input)
unfolding check_host
check_host-Returns dns text deadline fuel input enough =
    elim (Option-cases (text.parse_ip (text.trim input.ip))) [
      | inl bad ↦ rw (bad, check_host) (SpfResult.temperror, start, refl, inl refl)
      | inr (address, good) ↦
          rw (good, check_host)
            (elim (Bool-cases (text.is_valid_domain_name (without_dot input.domain))) [
              | inl valid ↦ rw valid (
                  Settled-Returns _ (
                    check_domain-Settled dns text (caller_of (unmapped address) input) deadline fuel
                      0 (without_dot input.domain) (omega (arith, enough)) start
                      (omega arith, omega arith, omega arith)))
              | inr invalid ↦
                  rw invalid (SpfResult.none, start, refl, inr (omega arith, omega arith))
            ])
    ]
