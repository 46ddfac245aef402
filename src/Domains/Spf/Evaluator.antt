-- ===== src/Domains/Spf/Evaluator.antt =====
-- src/modules/domains/services/spf-evaluator.ts: `checkDomain` and the mechanisms' matching.
-- Parameters: the resolver's answers, the text functions of spf-syntax.ts and spf-address.ts, the
-- message that is checked, and after how many queries the time limit strikes.
-- The recursion of `include` and `redirect` is on fuel.
pub mod Fuel
use bunmail.Prelude.{
  ℕ, zero, suc, ◌+◌, String, Bool, true, false, not, ◌||◌, List, [], ◌∷◌, Option, none, some, ltb,
  leb, if◌then◌else◌, str_eq, any, filter, length, map, join, ◌&◌, ◌==◌,
}
use bunmail.Domains.Spf.Types.{
  SpfResult, SpfError, perm, temp, Family, v4, v6, IpAddress, MacroToken, Mechanism, SpfMechanism,
  SpfRecord, Reply, MxRecord, SpfDnsResolver, Syntax,
}
use bunmail.Domains.Spf.Address.{in_network}
use bunmail.Domains.Spf.Answers.{
  Caller, Answer, ok, void, error, answer_of, ends_with, first_match, first_n, or_else,
  qualifier_result, error_result, uses_ptr,
}
use bunmail.Domains.Spf.Monad.{
  Evaluation, Outcome, done, thrown, stuck, M, ◌>>=◌, ◌>>◌, return, throw, catch, count_lookup,
  count_void, max_names_per_answer,
}

module _ (dns : SpfDnsResolver) (text : Syntax) (who : Caller) (deadline : ℕ) where
  -- One query: the time limit has struck before it, or strikes while it waits.
  pub query : {A : Type 0} → Reply A → M (Answer A)
  query reply ev =
      let ev' : Evaluation = record ev { queries = ev.queries + 1 } in
      if leb deadline ev.queries then (thrown temp, ev') else (done (answer_of reply), ev')

  pub records_of : {A : Type 0} → Answer A → M (List A)
  records_of (ok rs) = return rs
  records_of error = throw temp
  records_of void = do count_void; return []

  abbrev address_reply : Family → String → Reply String
  address_reply v4 name = dns.resolve4 name
  address_reply v6 name = dns.resolve6 name

  pub address_query : String → M (Answer String)
  address_query name = query (address_reply who.ip.family name)

  pub matches_address : List String → ℕ → Bool
  matches_address addresses prefix =
      any
        (λ t. elim (text.parse_ip t) [
          | none ↦ false
          | some network ↦ in_network who.ip network prefix
        ])
        addresses

  abbrev full_prefix : Family → ℕ
  full_prefix v4 = 32
  full_prefix v6 = 128

  abbrev family_prefix : Family → ℕ → ℕ → ℕ
  family_prefix v4 cidr4 cidr6 = cidr4
  family_prefix v6 cidr4 cidr6 = cidr6

  abbrev is_own : Answer String → Bool
  is_own (ok addresses) = matches_address addresses (full_prefix who.ip.family)
  is_own _ = false

  -- The names whose addresses hold the sending host's; the source looks them up at once.
  pub own_names : List String → M (List String)
  own_names [] = return []
  own_names (name ∷ names) = do
    answer ← address_query name
    rest ← own_names names
    return (if is_own answer then name ∷ rest else rest)

  pub ptr_names : Answer String → M (List String)
  ptr_names error = return []
  ptr_names void = do count_void; return []
  ptr_names (ok names) = own_names (
      filter (λ n. not (str_eq n ""))
        (map text.canonical_name (first_n max_names_per_answer names)))

  pub validated_names : M (List String)
  validated_names = do answer ← query (dns.resolve_ptr (text.reverse_name who.ip)); ptr_names answer

  pub ptr_macro_value : String → M String
  ptr_macro_value domain = do
    count_lookup
    names ← validated_names
    let target = text.canonical_name domain
    return
        (elim (or_else (first_match (λ n. str_eq n target) names) (
          or_else (first_match (λ n. ends_with n ("." & target)) names)
            (first_match (λ n. true) names))) [ none ↦ "unknown" | some n ↦ n ])

  pub expand_with : List MacroToken → String → Option String → Option String
  expand_with tokens domain ptr_name = text.target_name (
      text.expand_macros tokens (record {
        sender = who.sender;
        local_part = who.local_part;
        sender_domain = who.sender_domain;
        domain = domain;
        ip = who.ip;
        helo = who.helo;
        ptr_name = ptr_name;
      }))

  pub expand_target : List MacroToken → String → M (Option String)
  expand_target tokens domain =
      if any uses_ptr tokens
      then (do name ← ptr_macro_value domain; return (expand_with tokens domain (some name)))
      else return (expand_with tokens domain none)

  pub mechanism_target : Option (List MacroToken) → String → M (Option String)
  mechanism_target none domain = return (some domain)
  mechanism_target (some tokens) domain = expand_target tokens domain

  -- What a host's addresses mean to the loop over the hosts; `rest` is its next round.
  pub mx_answer : ℕ → M Bool → Answer String → M Bool
  mx_answer prefix rest error = throw temp
  mx_answer prefix rest void = rest
  mx_answer prefix rest (ok addresses) =
      if matches_address addresses prefix then return true else rest

  pub mx_hosts : List String → ℕ → M Bool
  mx_hosts [] prefix = return false
  mx_hosts (host ∷ hosts) prefix = do
    answer ← address_query host
    let rest = mx_hosts hosts prefix
    mx_answer prefix rest answer

  pub mx_names : List MxRecord → List String
  mx_names mxs =
      filter (λ n. not (str_eq n ""))
        (map (λ (m : MxRecord). text.host_name m.exchange) (text.sorted mxs))

  pub mx_checked : List String → ℕ → M Bool
  mx_checked hosts prefix =
      if ltb max_names_per_answer (length hosts) then throw perm else mx_hosts hosts prefix

  pub matches_mx : String → ℕ → M Bool
  matches_mx target prefix = do
    answer ← query (dns.resolve_mx target)
    mxs ← records_of answer
    mx_checked (mx_names mxs) prefix

  -- What the result of the included domain means to `include`.
  pub include_result : SpfResult → M Bool
  include_result SpfResult.pass = return true
  include_result SpfResult.fail = return false
  include_result SpfResult.softfail = return false
  include_result SpfResult.neutral = return false
  include_result SpfResult.none = throw perm
  include_result SpfResult.temperror = throw temp
  include_result SpfResult.permerror = throw perm

  pub matches_a : String → ℕ → M Bool
  matches_a target prefix = do
    answer ← address_query target
    addresses ← records_of answer
    return (matches_address addresses prefix)

  pub matches_ptr : String → M Bool
  matches_ptr target = do
    names ← validated_names
    let wanted = text.canonical_name target
    return (any (λ n. str_eq n wanted || ends_with n ("." & wanted)) names)

  pub matches_exists : String → M Bool
  matches_exists target = do
    answer ← query (dns.resolve4 target)
    addresses ← records_of answer
    return (ltb 0 (length addresses))

  -- `target === null` ends the mechanism without a match.
  pub on_target : (String → M Bool) → Option String → M Bool
  on_target k none = return false
  on_target k (some target) = k target

  pub include_target : (String → M SpfResult) → Option String → M Bool
  include_target check none = throw perm
  include_target check (some t) = check t >>= include_result

  -- `matches`, where `check` is `checkDomain`.
  pub matches : (String → M SpfResult) → Mechanism → String → M Bool
  matches check Mechanism.all domain = return true
  matches check (Mechanism.ip4 network prefix) domain = return (in_network who.ip network prefix)
  matches check (Mechanism.ip6 network prefix) domain = return (in_network who.ip network prefix)
  matches check (Mechanism.a spec cidr4 cidr6) domain = do
    count_lookup
    target ← mechanism_target spec domain
    on_target (λ t. matches_a t (family_prefix who.ip.family cidr4 cidr6)) target
  matches check (Mechanism.mx spec cidr4 cidr6) domain = do
    count_lookup
    target ← mechanism_target spec domain
    on_target (λ t. matches_mx t (family_prefix who.ip.family cidr4 cidr6)) target
  matches check (Mechanism.ptr spec) domain = do
    count_lookup
    target ← mechanism_target spec domain
    on_target matches_ptr target
  matches check (Mechanism.exists spec) domain = do
    count_lookup
    target ← expand_target spec domain
    on_target matches_exists target
  matches check (Mechanism.include spec) domain = do
    count_lookup
    target ← expand_target spec domain
    include_target check target

  abbrev pub redirect_result : SpfResult → SpfResult
  redirect_result SpfResult.none = SpfResult.permerror
  redirect_result r = r

  pub redirect_target : (String → M SpfResult) → Option String → M SpfResult
  redirect_target check none = return SpfResult.permerror
  redirect_target check (some t) = do r ← check t; return (redirect_result r)

  pub follow_redirect : (String → M SpfResult) → Option (List MacroToken) → String → M SpfResult
  follow_redirect check none domain = return SpfResult.neutral
  follow_redirect check (some spec) domain = do
    count_lookup
    target ← expand_target spec domain
    redirect_target check target

  -- The loop over the mechanisms, and what follows it.
  pub evaluate :
      (String → M SpfResult) → List SpfMechanism → Option (List MacroToken) → String → M SpfResult
  evaluate check [] redirect domain = follow_redirect check redirect domain
  evaluate check (m ∷ ms) redirect domain = do
    matched ← matches check m.mechanism domain
    let rest = evaluate check ms redirect domain
    if matched then return (qualifier_result m.qualifier) else rest

  pub spf_texts : Answer (List String) → List String
  spf_texts (ok answers) = filter text.is_spf_record (map (join "") answers)
  spf_texts _ = []

  pub evaluate_texts : (String → M SpfResult) → List String → String → M SpfResult
  evaluate_texts check [] domain = return SpfResult.none
  evaluate_texts check (t ∷ u ∷ more) domain = return SpfResult.permerror
  evaluate_texts check (t ∷ []) domain = elim (text.parse_spf_record t) [
    | none ↦ throw perm
    | some r ↦ evaluate check r.mechanisms r.redirect domain
  ]

  -- The body of `checkDomain`, with its error handler.
  pub check_answer : (String → M SpfResult) → Answer (List String) → String → M SpfResult
  check_answer check error domain = return SpfResult.temperror
  check_answer check answer domain = evaluate_texts check (spf_texts answer) domain

  pub check_domain : ℕ → String → M SpfResult
  check_domain zero domain = λ ev. (stuck, ev)
  check_domain (suc fuel) domain =
      catch
        (query (dns.resolve_txt domain) >>= λ answer.
          check_answer (check_domain fuel) answer domain)
        error_result
