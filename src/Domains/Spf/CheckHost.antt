-- ===== src/Domains/Spf/CheckHost.antt =====
-- src/modules/domains/services/spf-evaluator.ts: `checkHost`.
pub mod Limits
mod Tests
use Prim.Native.Char.{code}
use Prim.Native.String
use bunmail.Prelude.{
  ℕ, String, Bool, true, false, Option, none, some, if◌then◌else◌, str_eq, ◌&◌, ◌==◌,
}
use bunmail.Domains.Spf.Types.{SpfResult, IpAddress, SpfDnsResolver, Syntax}
use bunmail.Domains.Spf.Address.{unmapped}
use bunmail.Domains.Spf.Answers.{Caller}
use bunmail.Domains.Spf.Monad.{Evaluation, Outcome, done}
use bunmail.Domains.Spf.Evaluator.{check_domain}

-- `sender.lastIndexOf("@")`: what stands before the last sign, and after it.
pub split_at_sign : String → Option (String × String)
split_at_sign String.[] = none
split_at_sign (String.◌∷◌ c s) = elim (split_at_sign s) [
  | some (before, after) ↦ some (String.◌∷◌ c before, after)
  | none ↦ if code c == b'@' then some ("", s) else none
]

-- `text.replace(/\.$/, "")`
pub without_dot : String → String
without_dot String.[] = ""
without_dot (String.◌∷◌ c s) =
    if str_eq (String.◌∷◌ c s) "." then "" else String.◌∷◌ c (without_dot s)

pub record SpfCheckInput : Type 0 where
  pub ip : String
  pub domain : String
  pub sender : String
  pub helo : String

abbrev or_postmaster : String → String
or_postmaster local_part = if str_eq local_part "" then "postmaster" else local_part

-- The host and the sender as the evaluation sees them.
pub caller_of : IpAddress → SpfCheckInput → Caller
unfolding split_at_sign
caller_of ip input =
    let (local_part, sender_domain) : String × String = elim (split_at_sign input.sender) [
      | none ↦ ("postmaster", input.sender)
      | some (before, after) ↦ (or_postmaster before, after)
    ] in
    record {
      ip = ip;
      sender = local_part & "@" & sender_domain;
      local_part = local_part;
      sender_domain = sender_domain;
      helo = input.helo;
    }

abbrev pub start : Evaluation
start = record { lookups = 0; voids = 0; queries = 0 }

-- `checkHost`, and the evaluation that it ends with.
pub check_host : SpfDnsResolver → Syntax → ℕ → ℕ → SpfCheckInput → Outcome SpfResult × Evaluation
unfolding without_dot
check_host dns text deadline fuel input = elim (text.parse_ip (text.trim input.ip)) [
  | none ↦ (done SpfResult.temperror, start)
  | some address ↦
      let domain = without_dot input.domain in
      let run =
        check_domain dns text (caller_of (unmapped address) input) deadline fuel domain start in
      if text.is_valid_domain_name domain then run else (done SpfResult.none, start)
]
