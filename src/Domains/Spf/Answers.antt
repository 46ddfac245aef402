-- ===== src/Domains/Spf/Answers.antt =====
-- src/modules/domains/services/spf-evaluator.ts: the data of an evaluation, and what a DNS answer,
-- a qualifier and an error are to it.
use bunmail.Prelude.{
  ℕ, zero, suc, String, Bool, true, false, ◌||◌, List, [], ◌∷◌, Option, none, some, if◌then◌else◌,
  str_eq,
}
use bunmail.Domains.Spf.Types.{
  SpfResult, SpfError, perm, temp, IpAddress, letter_p, MacroToken, macro, Qualifier, plus, minus,
  tilde, question, Reply, records, dns_error,
}

-- The message: its sending host and its sender, as `checkHost` splits them.
pub record Caller : Type 0 where
  pub ip : IpAddress
  pub sender : String
  pub local_part : String
  pub sender_domain : String
  pub helo : String

pub data Answer (A : Type 0) : Type 0 where
  ok : List A → Answer A
  void error : Answer A

abbrev is_void_code : String → Bool
is_void_code code = str_eq code "ENOTFOUND" || str_eq code "ENODATA"

pub answer_of : {A : Type 0} → Reply A → Answer A
answer_of (records []) = void
answer_of (records (r ∷ rs)) = ok (r ∷ rs)
answer_of (dns_error code) = if is_void_code code then void else error

-- `text.endsWith(suffix)`
pub ends_with : String → String → Bool
ends_with String.[] suffix = str_eq "" suffix
ends_with (String.◌∷◌ c s) suffix = str_eq (String.◌∷◌ c s) suffix || ends_with s suffix

pub first_match : (String → Bool) → List String → Option String
first_match p [] = none
first_match p (x ∷ xs) = if p x then some x else first_match p xs

abbrev pub or_else : Option String → Option String → Option String
or_else none b = b
or_else (some a) b = some a

pub first_n : ℕ → List String → List String
first_n zero xs = []
first_n (suc n) [] = []
first_n (suc n) (x ∷ xs) = x ∷ first_n n xs

abbrev pub qualifier_result : Qualifier → SpfResult
qualifier_result plus = SpfResult.pass
qualifier_result minus = SpfResult.fail
qualifier_result tilde = SpfResult.softfail
qualifier_result question = SpfResult.neutral

abbrev pub error_result : SpfError → SpfResult
error_result perm = SpfResult.permerror
error_result temp = SpfResult.temperror

abbrev pub uses_ptr : MacroToken → Bool
uses_ptr (macro letter_p escape parts reverse delimiters) = true
uses_ptr _ = false

abbrev pub is_error : SpfResult → Bool
is_error SpfResult.permerror = true
is_error SpfResult.temperror = true
is_error _ = false
