-- ===== src/Domains/Spf/Types.antt =====
-- src/modules/domains/types/spf.types.ts and the types of spf-address.ts, spf-syntax.ts and
-- spf-evaluator.ts. Reason texts, which nothing in the evaluation reads, are left out.
use bunmail.Prelude.{ℕ, String, Bool, List, Option}

pub data SpfResult : Type 0 where
  pass fail softfail neutral none temperror permerror : SpfResult

-- What an `SpfError` ends the evaluation with.
pub data SpfError : Type 0 where
  perm temp : SpfError

pub data Family : Type 0 where
  v4 v6 : Family

pub record IpAddress : Type 0 where
  pub family : Family
  pub bytes : List ℕ

pub data MacroLetter : Type 0 where
  letter_s letter_l letter_o letter_d letter_i letter_p letter_h letter_v : MacroLetter
  letter_c letter_r letter_t : MacroLetter

pub data MacroToken : Type 0 where
  literal escape : String → MacroToken
  macro : MacroLetter → Bool → Option ℕ → Bool → String → MacroToken

pub data Qualifier : Type 0 where
  plus minus tilde question : Qualifier

pub data Mechanism : Type 0 where
  all : Mechanism
  include exists : List MacroToken → Mechanism
  a mx : Option (List MacroToken) → ℕ → ℕ → Mechanism
  ptr : Option (List MacroToken) → Mechanism
  ip4 ip6 : IpAddress → ℕ → Mechanism

pub record SpfMechanism : Type 0 where
  pub qualifier : Qualifier
  pub mechanism : Mechanism

pub record SpfRecord : Type 0 where
  pub mechanisms : List SpfMechanism
  pub redirect : Option (List MacroToken)

-- What a resolver answers: records, or an error with its code.
pub data Reply (A : Type 0) : Type 0 where
  records : List A → Reply A
  dns_error : String → Reply A

pub record MxRecord : Type 0 where
  pub exchange : String
  pub priority : ℕ

pub record SpfDnsResolver : Type 0 where
  pub resolve_txt : String → Reply (List String)
  pub resolve4 : String → Reply String
  pub resolve6 : String → Reply String
  pub resolve_mx : String → Reply MxRecord
  pub resolve_ptr : String → Reply String

-- What `expandMacros` is given beside the tokens.
pub record MacroContext : Type 0 where
  pub sender : String
  pub local_part : String
  pub sender_domain : String
  pub domain : String
  pub ip : IpAddress
  pub helo : String
  pub ptr_name : Option String

-- The functions of spf-syntax.ts and spf-address.ts that read or write text, and `sorted`, the
-- order by priority. `parse_spf_record` is `none` where the source throws a permerror.
pub record Syntax : Type 0 where
  pub is_spf_record : String → Bool
  pub parse_spf_record : String → Option SpfRecord
  pub expand_macros : List MacroToken → MacroContext → String
  pub target_name : String → Option String
  pub is_valid_domain_name : String → Bool
  pub trim : String → String
  pub parse_ip : String → Option IpAddress
  pub reverse_name : IpAddress → String
  pub canonical_name : String → String
  pub host_name : String → String
  pub sorted : List MxRecord → List MxRecord
