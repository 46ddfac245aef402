-- ===== src/Domains/Spf/CheckHost/Tests.antt =====
-- A run of `checkHost` over a domain that includes itself.
use bunmail.Prelude.{true, [], ◌∷◌, none, some, arith}
use bunmail.Domains.Spf.Types.{
  v4, IpAddress, literal, minus, Mechanism, SpfRecord, records, dns_error, SpfDnsResolver, Syntax,
}
use bunmail.Domains.Spf.CheckHost.{SpfCheckInput, check_host}
use bunmail.Domains.Spf.CheckHost.Limits.{Returns, check_host-Returns}

-- Every domain's record includes "a.test".
abbrev dns : SpfDnsResolver
dns = record {
  resolve_txt = λ name. records (("v=spf1 include:a.test -all" ∷ []) ∷ []);
  resolve4 = λ name. dns_error "ENOTFOUND";
  resolve6 = λ name. dns_error "ENOTFOUND";
  resolve_mx = λ name. dns_error "ENOTFOUND";
  resolve_ptr = λ name. dns_error "ENOTFOUND";
}

abbrev the_record : SpfRecord
the_record = record {
  mechanisms =
      record { qualifier = minus; mechanism = Mechanism.include (literal "a.test" ∷ []) }
      ∷ record { qualifier = minus; mechanism = Mechanism.all }
      ∷ [];
  redirect = none;
}

abbrev host : IpAddress
host = record { family = v4; bytes = 192 ∷ 0 ∷ 2 ∷ 1 ∷ [] }

abbrev text : Syntax
text = record {
  is_spf_record = λ t. true;
  parse_spf_record = λ t. some the_record;
  expand_macros = λ tokens values. "a.test";
  target_name = λ t. some t;
  is_valid_domain_name = λ t. true;
  trim = λ t. t;
  parse_ip = λ t. some host;
  reverse_name = λ ip. "1.2.0.192.in-addr.arpa";
  canonical_name = λ t. t;
  host_name = λ t. t;
  sorted = λ mxs. mxs;
}

abbrev input : SpfCheckInput
input = record { ip = "192.0.2.1"; domain = "a.test."; sender = "u@a.test"; helo = "mx.a.test" }

check_host-Returns_example : Returns (check_host dns text 1000 11 input)
check_host-Returns_example = check_host-Returns dns text 1000 11 input (omega arith)
