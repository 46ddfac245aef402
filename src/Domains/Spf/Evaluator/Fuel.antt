-- ===== src/Domains/Spf/Evaluator/Fuel.antt =====
-- The limits bound the recursion: every `include` and `redirect` is counted first.
use bunmail.Prelude.{
  ℕ, zero, suc, ◌+◌, ◌≤◌, ◌≡◌, ◌⊎◌, inl, inr, refl, String, Bool, true, false, List, [], ◌∷◌,
  Option, none, some, ltb, if◌then◌else◌, any, length, arith, Bool-cases, Option-cases,
}
use bunmail.Domains.Spf.Types.{
  SpfResult, perm, temp, MacroToken, Mechanism, SpfMechanism, Reply, SpfDnsResolver, Syntax,
}
use bunmail.Domains.Spf.Answers.{
  Caller, Answer, ok, void, error, error_result, uses_ptr, qualifier_result, is_error,
}
use bunmail.Domains.Spf.Monad.{
  Evaluation, Outcome, done, thrown, stuck, M, ◌>>=◌, ◌>>◌, return, catch, count_lookup, count_void,
  max_names_per_answer,
}
use bunmail.Domains.Spf.Evaluator.{
  query, records_of, address_query, own_names, ptr_names, validated_names, ptr_macro_value,
  expand_target, mechanism_target, mx_hosts, matches_mx, include_result, matches_a, matches_ptr,
  matches_exists, on_target, matches, follow_redirect, evaluate, evaluate_texts, check_answer,
  check_domain, matches_address, include_target, redirect_target, redirect_result, mx_answer,
  mx_names, mx_checked,
}

-- At least `n` terms are counted, and no limit is passed.
abbrev pub Within : ℕ → Evaluation → Type 0
Within n ev = (n ≤ ev.lookups) × (ev.lookups ≤ 10) × (ev.voids ≤ 2)

-- What ends with a value has `Q`; an error may be thrown; nothing is stuck.
abbrev pub Holds : {A : Type 0} → (A → Evaluation → Type 0) → Outcome A × Evaluation → Type 0
Holds Q (done a, ev) = Q a ev
Holds Q (thrown e, ev) = Unit
Holds Q (stuck, ev) = ⊥

abbrev pub Triple : {A : Type 0} → ℕ → (A → Evaluation → Type 0) → M A → Type 0
Triple n Q m = (ev : Evaluation) → Within n ev → Holds Q (m ev)

abbrev pub Safe : {A : Type 0} → ℕ → ℕ → M A → Type 0
Safe n k m = Triple n (λ _. Within k) m

-- What ends with a result that is no error has passed no limit.
abbrev pub Answers : ℕ → SpfResult → Evaluation → Type 0
Answers n r ev = (is_error r ≡ true) ⊎ Within n ev

-- A result is there: no error is thrown to the caller, and the fuel was enough.
abbrev pub Settled : ℕ → Outcome SpfResult × Evaluation → Type 0
Settled n (done r, ev) = Answers n r ev
Settled n (thrown e, ev) = ⊥
Settled n (stuck, ev) = ⊥

module _ {A B : Type 0} (Q : A → Evaluation → Type 0) (R : B → Evaluation → Type 0)
    (f : A → M B) where
  bind-Holds :
      (r : Outcome A × Evaluation)
      → Holds Q r
      → ((a : A) (ev : Evaluation) → Q a ev → Holds R (f a ev))
      → Holds R (elim r.0 [ done a ↦ f a r.1 | thrown e ↦ (thrown e, r.1) | stuck ↦ (stuck, r.1) ])
  bind-Holds (done a, ev) h q = q a ev h
  bind-Holds (thrown e, ev) h q = tt
  bind-Holds (stuck, ev) h q = h

  pub bind-Triple :
      (n : ℕ) (m : M A)
      → Triple n Q m
      → ((a : A) (ev : Evaluation) → Q a ev → Holds R (f a ev))
      → Triple n R (m >>= f)
  unfolding ◌>>=◌
  bind-Triple n m p q ev h = bind-Holds (m ev) (p ev h) q

-- A step that is safe, and then one that has what it leaves.
pub bind-Safe :
    {A B : Type 0} (R : B → Evaluation → Type 0) (n k : ℕ) (m : M A) (f : A → M B)
    → Safe n k m
    → ((a : A) → Triple k R (f a))
    → Triple n R (m >>= f)
bind-Safe R n k m f p q = bind-Triple (λ _. Within k) R f n m p q

pub then-Safe :
    {B : Type 0} (R : B → Evaluation → Type 0) (n k : ℕ) (m : M (Unit {0})) (next : M B)
    → Safe n k m
    → Triple k R next
    → Triple n R (m >> next)
unfolding ◌>>◌
then-Safe R n k m next p q = bind-Safe R n k m (λ _. next) p (λ _. q)

pub count_lookup-Safe : (n : ℕ) → Safe n (suc n) count_lookup
unfolding count_lookup
count_lookup-Safe n ev h = ground arith

pub count_void-Safe : (n : ℕ) → Safe n n count_void
unfolding count_void
count_void-Safe n ev h = ground arith

module _ (dns : SpfDnsResolver) (text : Syntax) (who : Caller) (deadline : ℕ) where
  query-Safe : {A : Type 0} (n : ℕ) (reply : Reply A) → Safe n n (query dns text who deadline reply)
  unfolding query
  query-Safe n reply ev h = ground arith

  records_of-Safe :
      {A : Type 0} (n : ℕ) (a : Answer A) → Safe n n (records_of dns text who deadline a)
  unfolding records_of
  records_of-Safe n (ok rs) = λ ev h. h
  records_of-Safe n void = then-Safe _ n n count_void (return []) (count_void-Safe n) (λ ev h. h)
  records_of-Safe n error = λ ev h. tt

  address_query-Safe : (n : ℕ) (name : String) → Safe n n (address_query dns text who deadline name)
  unfolding address_query
  address_query-Safe n name = query-Safe n _

  own_names-Safe : (n : ℕ) (names : List String) → Safe n n (own_names dns text who deadline names)
  unfolding own_names
  own_names-Safe n [] = λ ev h. h
  own_names-Safe n (name ∷ names) =
      bind-Safe _ n n (address_query dns text who deadline name) _ (address_query-Safe n name)
        (λ answer.
          bind-Safe _ n n (own_names dns text who deadline names) _ (own_names-Safe n names)
            (λ rest ev h. h))

  ptr_names-Safe : (n : ℕ) (a : Answer String) → Safe n n (ptr_names dns text who deadline a)
  unfolding ptr_names
  ptr_names-Safe n (ok names) = own_names-Safe n _
  ptr_names-Safe n void = then-Safe _ n n count_void (return []) (count_void-Safe n) (λ ev h. h)
  ptr_names-Safe n error = λ ev h. h

  validated_names-Safe : (n : ℕ) → Safe n n (validated_names dns text who deadline)
  unfolding validated_names
  validated_names-Safe n = bind-Safe _ n n _ _ (query-Safe n _) (ptr_names-Safe n)

  weaken : {A : Type 0} (n : ℕ) (m : M A) → Safe n (suc n) m → Safe n n m
  weaken n m p ev h = loosen (m ev) (p ev h)
    where
      loosen :
          {A : Type 0} (r : Outcome A × Evaluation)
          → Holds (λ _. Within (suc n)) r
          → Holds (λ _. Within n) r
      loosen (done a, ev') h' = omega (arith, h')
      loosen (thrown e, ev') h' = tt
      loosen (stuck, ev') h' = h'

  ptr_macro_value-Safe :
      (n : ℕ) (domain : String) → Safe n n (ptr_macro_value dns text who deadline domain)
  unfolding ptr_macro_value
  ptr_macro_value-Safe n domain = weaken n _ (
      then-Safe _ n (suc n) count_lookup _ (count_lookup-Safe n) (
        bind-Safe _ (suc n) (suc n) (validated_names dns text who deadline) _
          (validated_names-Safe (suc n)) (λ names ev h. h)))

  expand_target-Safe :
      (n : ℕ) (tokens : List MacroToken) (domain : String)
      → Safe n n (expand_target dns text who deadline tokens domain)
  unfolding expand_target
  expand_target-Safe n tokens domain = elim (Bool-cases (any uses_ptr tokens)) [
    | inl ptr ↦ rw ptr (
        bind-Safe _ n n (ptr_macro_value dns text who deadline domain) _
          (ptr_macro_value-Safe n domain) (λ name ev h. h))
    | inr plain ↦ rw plain (λ ev h. h)
  ]

  mechanism_target-Safe :
      (n : ℕ) (spec : Option (List MacroToken)) (domain : String)
      → Safe n n (mechanism_target dns text who deadline spec domain)
  unfolding mechanism_target
  mechanism_target-Safe n none domain = λ ev h. h
  mechanism_target-Safe n (some tokens) domain = expand_target-Safe n tokens domain

  mx_answer-Safe :
      (n prefix : ℕ) (rest : M Bool) (a : Answer String)
      → Safe n n rest
      → Safe n n (mx_answer dns text who deadline prefix rest a)
  unfolding mx_answer
  mx_answer-Safe n prefix rest (ok addresses) p = λ ev h.
      elim (Bool-cases (matches_address dns text who deadline addresses prefix)) [
        | inl hit ↦ rw hit h
        | inr miss ↦ rw miss (p ev h)
      ]
  mx_answer-Safe n prefix rest void p = p
  mx_answer-Safe n prefix rest error p = λ ev h. tt

  mx_hosts-Safe :
      (n : ℕ) (hosts : List String) (prefix : ℕ)
      → Safe n n (mx_hosts dns text who deadline hosts prefix)
  unfolding mx_hosts
  mx_hosts-Safe n [] prefix = λ ev h. h
  mx_hosts-Safe n (host ∷ hosts) prefix =
      bind-Safe _ n n (address_query dns text who deadline host) _ (address_query-Safe n host)
        (λ a. mx_answer-Safe n prefix _ a (mx_hosts-Safe n hosts prefix))

  matches_mx-Safe :
      (n : ℕ) (target : String) (prefix : ℕ)
      → Safe n n (matches_mx dns text who deadline target prefix)
  unfolding matches_mx mx_checked
  matches_mx-Safe n target prefix =
      bind-Safe _ n n (query dns text who deadline (dns.resolve_mx target)) _ (query-Safe n _)
        (λ answer.
          bind-Safe _ n n (records_of dns text who deadline answer) _ (records_of-Safe n answer)
            (λ mxs. mx_checked-Safe (mx_names dns text who deadline mxs)))
    where
      mx_checked-Safe :
          (hosts : List String) → Safe n n (mx_checked dns text who deadline hosts prefix)
      mx_checked-Safe hosts ev h = elim (Bool-cases (ltb max_names_per_answer (length hosts))) [
        | inl many ↦ rw many tt
        | inr few ↦ rw few (mx_hosts-Safe n hosts prefix ev h)
      ]

  include_result-Holds :
      (n : ℕ) (r : SpfResult) (ev : Evaluation)
      → Answers n r ev
      → Holds (λ _. Within n) (include_result dns text who deadline r ev)
  unfolding include_result
  include_result-Holds n SpfResult.pass ev (inr h) = h
  include_result-Holds n SpfResult.fail ev (inr h) = h
  include_result-Holds n SpfResult.softfail ev (inr h) = h
  include_result-Holds n SpfResult.neutral ev (inr h) = h
  include_result-Holds n SpfResult.none ev h = tt
  include_result-Holds n SpfResult.temperror ev h = tt
  include_result-Holds n SpfResult.permerror ev h = tt
  include_result-Holds n SpfResult.pass ev (inl e) = absurd (ground (arith, e))
  include_result-Holds n SpfResult.fail ev (inl e) = absurd (ground (arith, e))
  include_result-Holds n SpfResult.softfail ev (inl e) = absurd (ground (arith, e))
  include_result-Holds n SpfResult.neutral ev (inl e) = absurd (ground (arith, e))

  on_target-Safe :
      (n : ℕ) (k : String → M Bool) (target : Option String)
      → ((t : String) → Safe n n (k t))
      → Safe n n (on_target dns text who deadline k target)
  unfolding on_target
  on_target-Safe n k none p = λ ev h. h
  on_target-Safe n k (some t) p = p t

  matches_a-Safe :
      (n : ℕ) (target : String) (prefix : ℕ)
      → Safe n n (matches_a dns text who deadline target prefix)
  unfolding matches_a
  matches_a-Safe n target prefix =
      bind-Safe _ n n (address_query dns text who deadline target) _ (address_query-Safe n target)
        (λ answer.
          bind-Safe _ n n (records_of dns text who deadline answer) _ (records_of-Safe n answer)
            (λ addresses ev h. h))

  matches_ptr-Safe : (n : ℕ) (target : String) → Safe n n (matches_ptr dns text who deadline target)
  unfolding matches_ptr
  matches_ptr-Safe n target =
      bind-Safe _ n n (validated_names dns text who deadline) _ (validated_names-Safe n)
        (λ names ev h. h)

  matches_exists-Safe :
      (n : ℕ) (target : String) → Safe n n (matches_exists dns text who deadline target)
  unfolding matches_exists
  matches_exists-Safe n target =
      bind-Safe _ n n (query dns text who deadline (dns.resolve4 target)) _ (query-Safe n _)
        (λ answer.
          bind-Safe _ n n (records_of dns text who deadline answer) _ (records_of-Safe n answer)
            (λ addresses ev h. h))

  -- A counted term with a target.
  counted-Safe :
      (n : ℕ) (target : M (Option String)) (k : String → M Bool)
      → ((j : ℕ) → Safe j j target)
      → ((j : ℕ) (t : String) → Safe j j (k t))
      → Safe n n (count_lookup >> (target >>= on_target dns text who deadline k))
  counted-Safe n target k p q = weaken n _ (
      then-Safe _ n (suc n) count_lookup _ (count_lookup-Safe n) (
        bind-Safe _ (suc n) (suc n) target _ (p (suc n))
          (λ t. on_target-Safe (suc n) k t (q (suc n)))))

  module _ (check : String → M SpfResult) (n : ℕ)
      (checks : (t : String) → Triple (suc n) (Answers (suc n)) (check t)) where
    matches-Safe :
        (m : Mechanism) (domain : String) → Safe n n (matches dns text who deadline check m domain)
    unfolding matches include_target
    matches-Safe Mechanism.all domain = λ ev h. h
    matches-Safe (Mechanism.ip4 network prefix) domain = λ ev h. h
    matches-Safe (Mechanism.ip6 network prefix) domain = λ ev h. h
    matches-Safe (Mechanism.a spec c4 c6) domain =
        counted-Safe n _ _ (λ j. mechanism_target-Safe j spec domain) (λ j t. matches_a-Safe j t _)
    matches-Safe (Mechanism.mx spec c4 c6) domain =
        counted-Safe n _ _ (λ j. mechanism_target-Safe j spec domain) (λ j t. matches_mx-Safe j t _)
    matches-Safe (Mechanism.ptr spec) domain =
        counted-Safe n _ _ (λ j. mechanism_target-Safe j spec domain) matches_ptr-Safe
    matches-Safe (Mechanism.exists spec) domain =
        counted-Safe n _ _ (λ j. expand_target-Safe j spec domain) matches_exists-Safe
    matches-Safe (Mechanism.include spec) domain = weaken n _ (
        then-Safe _ n (suc n) count_lookup _ (count_lookup-Safe n) (
          bind-Safe _ (suc n) (suc n) (expand_target dns text who deadline spec domain) _
            (expand_target-Safe (suc n) spec domain) included))
      where
        included :
            (t : Option String)
            → Safe (suc n) (suc n) (include_target dns text who deadline check t)
        included none = λ ev h. tt
        included (some t) =
            bind-Triple (Answers (suc n)) _ _ (suc n) (check t) (checks t)
              (include_result-Holds (suc n))

    loosen_Answers : (r : SpfResult) (ev : Evaluation) → Answers (suc n) r ev → Answers n r ev
    loosen_Answers r ev (inl e) = inl e
    loosen_Answers r ev (inr h) = inr (omega (arith, h))

    redirect_result-Answers :
        (r : SpfResult) (ev : Evaluation)
        → Answers (suc n) r ev
        → Answers n (redirect_result dns text who deadline r) ev
    redirect_result-Answers SpfResult.none ev h = inl refl
    redirect_result-Answers SpfResult.pass ev h = loosen_Answers SpfResult.pass ev h
    redirect_result-Answers SpfResult.fail ev h = loosen_Answers SpfResult.fail ev h
    redirect_result-Answers SpfResult.softfail ev h = loosen_Answers SpfResult.softfail ev h
    redirect_result-Answers SpfResult.neutral ev h = loosen_Answers SpfResult.neutral ev h
    redirect_result-Answers SpfResult.temperror ev h = inl refl
    redirect_result-Answers SpfResult.permerror ev h = inl refl

    redirect_target-Answers :
        (t : Option String)
        → Triple (suc n) (Answers n) (redirect_target dns text who deadline check t)
    unfolding redirect_target
    redirect_target-Answers none = λ ev h. inl refl
    redirect_target-Answers (some t) =
        bind-Triple (Answers (suc n)) _ _ (suc n) (check t) (checks t) redirect_result-Answers

    follow_redirect-Answers :
        (redirect : Option (List MacroToken)) (domain : String)
        → Triple n (Answers n) (follow_redirect dns text who deadline check redirect domain)
    unfolding follow_redirect
    follow_redirect-Answers none domain = λ ev h. inr h
    follow_redirect-Answers (some spec) domain =
        then-Safe _ n (suc n) count_lookup _ (count_lookup-Safe n) (
          bind-Safe _ (suc n) (suc n) (expand_target dns text who deadline spec domain) _
            (expand_target-Safe (suc n) spec domain) redirect_target-Answers)

    evaluate-Answers :
        (ms : List SpfMechanism) (redirect : Option (List MacroToken)) (domain : String)
        → Triple n (Answers n) (evaluate dns text who deadline check ms redirect domain)
    unfolding evaluate
    evaluate-Answers [] redirect domain = follow_redirect-Answers redirect domain
    evaluate-Answers (m ∷ ms) redirect domain =
        bind-Safe _ n n (matches dns text who deadline check m.mechanism domain) _
          (matches-Safe m.mechanism domain)
          (λ matched. after_match _ matched (evaluate-Answers ms redirect domain))
      where
        after_match :
            (rest : M SpfResult) (matched : Bool)
            → Triple n (Answers n) rest
            → Triple n (Answers n) (if matched then return (qualifier_result m.qualifier) else rest)
        after_match rest true p ev h = inr h
        after_match rest false p ev h = p ev h

    evaluate_texts-Answers :
        (texts : List String) (domain : String)
        → Triple n (Answers n) (evaluate_texts dns text who deadline check texts domain)
    unfolding evaluate_texts
    evaluate_texts-Answers [] domain ev h = inr h
    evaluate_texts-Answers (t ∷ u ∷ more) domain ev h = inl refl
    evaluate_texts-Answers (t ∷ []) domain ev h = elim (Option-cases (text.parse_spf_record t)) [
      | inl bad ↦ rw (bad, evaluate_texts) tt
      | inr (r, good) ↦
          rw (good, evaluate_texts) (evaluate-Answers r.mechanisms r.redirect domain ev h)
    ]

    check_answer-Answers :
        (a : Answer (List String)) (domain : String)
        → Triple n (Answers n) (check_answer dns text who deadline check a domain)
    unfolding check_answer
    check_answer-Answers (ok answers) domain = evaluate_texts-Answers _ domain
    check_answer-Answers void domain = evaluate_texts-Answers _ domain
    check_answer-Answers error domain = λ ev h. inl refl

  catch-Settled :
      (n : ℕ) (m : M SpfResult)
      → Triple n (Answers n) m
      → (ev : Evaluation) → Within n ev
      → Settled n (catch m error_result ev)
  unfolding catch
  catch-Settled n m p ev h = settle (m ev) (p ev h)
    where
      settle :
          (r : Outcome SpfResult × Evaluation)
          → Holds (Answers n) r
          → Settled n (elim r.0 [
            | done a ↦ (done a, r.1)
            | thrown e ↦ (done (error_result e), r.1)
            | stuck ↦ (stuck, r.1)
          ])
      settle (done a, ev') h' = h'
      settle (thrown perm, ev') h' = inl refl
      settle (thrown temp, ev') h' = inl refl
      settle (stuck, ev') h' = h'

  Settled-Holds : (n : ℕ) (r : Outcome SpfResult × Evaluation) → Settled n r → Holds (Answers n) r
  Settled-Holds n (done a, ev) h = h
  Settled-Holds n (thrown e, ev) h = tt
  Settled-Holds n (stuck, ev) h = h

  pub check_domain-Settled :
      (fuel n : ℕ) (domain : String)
      → 11 ≤ fuel + n
      → (ev : Evaluation) → Within n ev
      → Settled n (check_domain dns text who deadline fuel domain ev)
  unfolding check_domain
  check_domain-Settled zero n domain enough = λ ev h. absurd (omega (arith, h, enough))
  check_domain-Settled (suc fuel) n domain enough =
      let check = check_domain dns text who deadline fuel in
      catch-Settled n _ (
        bind-Safe _ n n (query dns text who deadline (dns.resolve_txt domain)) _ (query-Safe n _)
          (λ answer.
            check_answer-Answers check n
              (λ t ev h.
                Settled-Holds (suc n) (check t ev)
                  (check_domain-Settled fuel (suc n) t (omega (arith, enough)) ev h))
              answer domain))
