-- ===== src/Dns/Response/Total.antt =====
-- The parse of a response always ends, and never throws.
use bunmail.Prelude.{
  ℕ, zero, suc, ◌+◌, ◌/◌, ◌%◌, ◌≤◌, ◌≡◌, refl, Bool, true, false, not, ◌&&◌, ◌||◌, List, [], ◌∷◌,
  Option, none, some, length, ltb, ◌==◌, if◌then◌else◌, arith, All, Bool-cases, inl, inr,
}
use bunmail.Dns.Bytes.{Bytes, u16}
use bunmail.Dns.Query.{TxtQuestion, type_cname, type_txt, class_in}
use bunmail.Dns.Name.{Read, ok, malformed, range_error, out_of_fuel, ◌>>=◌, ReadName, read_name}
use bunmail.Dns.Response.{
  TxtResponseOutcome, ebadresp, same_name, questionless, rcode_error, mismatch, error,
  ResourceRecord, txt_strings, Sections, read_records, Targets, target_of, agrees, add_target,
  targets_of, has_name, no_link, link, walk, chain_owners, collect, found, answer, read_counted,
  read_sections, caught, any_caught, after_question, parse_txt_response, max_cname_links,
}
use bunmail.Dns.Response.InRange.{
  Returns, Any, InMessage, AnswersIn, >>=-Returns, if_Returns, in_message-Returns,
  read_name-Returns, txt_strings-Returns, read_records-Returns,
}

targets_of-Returns :
    (m : Bytes) (rs : List ResourceRecord) (ts : Targets) → Returns Any (targets_of m rs ts)
unfolding targets_of
targets_of-Returns m [] ts = tt
targets_of-Returns m (r ∷ rs) ts =
    >>=-Returns Any Any
      (if r.type == type_cname && r.rr_class == class_in
        then read_name m r.rdata_start >>= add_target ts r
        else ok ts)
      (targets_of m rs)
      (if_Returns Any (r.type == type_cname && r.rr_class == class_in) _ _
        (>>=-Returns Any Any (read_name m r.rdata_start) (add_target ts r)
          (read_name-Returns m r.rdata_start)
          (λ target h.
            if_Returns Any (not (target.next == r.rdata_end)) _ _ tt
              (if_Returns Any (agrees (target_of ts r.owner) target.labels) _ _ tt tt)))
        tt)
      (λ ts' h. targets_of-Returns m rs ts')

no_link-Returns :
    (owners : List (List Bytes)) (t : Option (List Bytes)) → Returns Any (no_link owners t)
no_link-Returns owners none = tt
no_link-Returns owners (some t) = tt

link-Returns :
    (loop : List Bytes → List (List Bytes) → Read (List (List Bytes))) (owners : List (List Bytes))
    (t : Option (List Bytes))
    → ((name : List Bytes) (names : List (List Bytes)) → Returns Any (loop name names))
    → Returns Any (link loop owners t)
link-Returns loop owners none ends = tt
link-Returns loop owners (some t) ends =
    if_Returns Any (has_name owners t) _ _ tt (ends t (t ∷ owners))

walk-Returns :
    (left : ℕ) (ts : Targets) (current : List Bytes) (owners : List (List Bytes))
    → Returns Any (walk left ts current owners)
unfolding walk
walk-Returns zero ts current owners = no_link-Returns owners (target_of ts current)
walk-Returns (suc left) ts current owners =
    link-Returns (walk left ts) owners (target_of ts current)
      (λ name names. walk-Returns left ts name names)

chain_owners-Returns :
    (m : Bytes) (answers : List ResourceRecord) (asked : List Bytes)
    → Returns Any (chain_owners m answers asked)
unfolding chain_owners
chain_owners-Returns m answers asked =
    >>=-Returns Any Any (targets_of m answers []) (λ ts. walk max_cname_links ts asked (asked ∷ []))
      (targets_of-Returns m answers []) (λ ts h. walk-Returns max_cname_links ts asked (asked ∷ []))

collect-Returns :
    (m : Bytes) (owners : List (List Bytes)) (rs : List ResourceRecord)
    → All (InMessage m) rs
    → Returns Any (collect m owners rs)
unfolding collect
collect-Returns m owners [] h = tt
collect-Returns m owners (r ∷ rs) (here, h) =
    let rest = collect-Returns m owners rs h in
    if_Returns Any (not (r.type == type_txt)) _ _ rest (
      >>=-Returns Any Any (txt_strings m r)
        (λ strings.
          if r.rr_class == class_in && has_name owners r.owner
          then (collect m owners rs >>= λ more. ok (strings ∷ more))
          else collect m owners rs)
        (txt_strings-Returns m r here)
        (λ strings k.
          if_Returns Any (r.rr_class == class_in && has_name owners r.owner) _ _
            (>>=-Returns Any Any (collect m owners rs) (λ more. ok (strings ∷ more)) rest
              (λ more k. tt))
            rest))

found-Returns : (rs : List (List Bytes)) → Returns Any (found rs)
found-Returns [] = tt
found-Returns (r ∷ rs) = tt

answer-Returns :
    (m : Bytes) (question : TxtQuestion) (s : Sections)
    → AnswersIn m s
    → Returns Any (answer m question s)
answer-Returns m question s h = if_Returns Any (not (s.rcode == 0)) _ _ tt (
    >>=-Returns Any Any (chain_owners m s.answers question.labels)
      (λ owners. collect m owners s.answers >>= found)
      (chain_owners-Returns m s.answers question.labels)
      (λ owners k.
        >>=-Returns Any Any (collect m owners s.answers) found
          (collect-Returns m owners s.answers h) (λ rs l. found-Returns rs)))

read_sections-Returns :
    (m : Bytes) (start header_rcode : ℕ) (question : TxtQuestion)
    → 12 ≤ length m
    → Returns Any (read_sections m start header_rcode question)
unfolding read_sections read_counted
read_sections-Returns m start header_rcode question inside =
    let s : Sections = record { at = start; answers = []; opt_records = 0; rcode = header_rcode } in
    in_message-Returns Any m 12 _ inside (
      >>=-Returns (AnswersIn m) Any
        (read_records (u16 m 6 + u16 m 8 + u16 m 10) m (u16 m 6) (u16 m 6 + u16 m 8) 0 s)
        (answer m question)
        (read_records-Returns (u16 m 6 + u16 m 8 + u16 m 10) m (u16 m 6) (u16 m 6 + u16 m 8) 0 s tt)
        (λ s' h. answer-Returns m question s' h))

-- What `Returns` and is caught is an outcome.
abbrev Decided : Read TxtResponseOutcome → Type 0
Decided r = (outcome : TxtResponseOutcome) × (r ≡ ok outcome)

caught-Decided :
    (instead : TxtResponseOutcome) (r : Read TxtResponseOutcome)
    → Returns Any r
    → Decided (caught instead r)
caught-Decided instead (ok outcome) h = (outcome, refl)
caught-Decided instead malformed h = (instead, refl)
caught-Decided instead range_error h = absurd h
caught-Decided instead out_of_fuel h = absurd h

if_Decided :
    (b : Bool) (x y : Read TxtResponseOutcome)
    → Decided x
    → Decided y
    → Decided (if b then x else y)
if_Decided true x y h k = h
if_Decided false x y h k = k

Decided-Returns : (r : Read TxtResponseOutcome) → Decided r → Returns Any r
Decided-Returns r (outcome, e) = rw e tt

after_question-Returns :
    (m : Bytes) (flags : ℕ) (question : TxtQuestion) (asked : ReadName)
    → 12 ≤ length m
    → Returns Any (after_question m flags question asked)
after_question-Returns m flags question asked inside =
    if_Returns Any (ltb (length m) (asked.next + 4)) _ _ tt (
      if_Returns Any
        (not (same_name asked.labels question.labels)
          || not (u16 m asked.next == type_txt)
          || not (u16 m (asked.next + 2) == class_in))
        _ _ tt
        (if_Returns Any (flags / 512 % 2 == 1) _ _ tt (
          Decided-Returns _ (
            caught-Decided (error ebadresp) (read_sections m (asked.next + 4) (flags % 16) question)
              (read_sections-Returns m (asked.next + 4) (flags % 16) question inside)))))

any_caught-Returns : (r : Read ReadName) → Returns Any r → Returns Any (any_caught r)
any_caught-Returns (ok name) h = tt
any_caught-Returns malformed h = tt
any_caught-Returns range_error h = absurd h
any_caught-Returns out_of_fuel h = absurd h

-- The parse of any bytes against any question ends with an outcome. It never throws: whatever is
-- malformed is caught, and no read of the header, of a record's fields or of a text lies past the
-- message. And no loop in it, over pointers, labels, records, strings or CNAME links, runs on.
pub parse_txt_response-Decided :
    (m : Bytes) (question : TxtQuestion)
    → (outcome : TxtResponseOutcome) × (parse_txt_response m question ≡ ok outcome)
unfolding parse_txt_response
parse_txt_response-Decided m question = elim (Bool-cases (ltb (length m) 12)) [
  | inl few ↦ rw few (mismatch, refl)
  | inr enough ↦
      let flags = u16 m 2 in
      let inside : 12 ≤ length m = ground arith in
      let header : ltb (length m) 6 ≡ false = ground (arith, inside) in
      rw (enough, header)
        (if_Decided
          (not (u16 m 0 == question.id)
            || not (flags / 32768 % 2 == 1)
            || not (flags / 2048 % 16 == 0))
          _ _ (mismatch, refl)
          (if_Decided (u16 m 4 == 0 && questionless (flags % 16)) _ _
            (error (rcode_error (flags % 16)), refl)
            (if_Decided (not (u16 m 4 == 1)) _ _ (mismatch, refl)
              (caught-Decided mismatch
                (any_caught (read_name m 12) >>= after_question m flags question)
                (>>=-Returns Any Any (any_caught (read_name m 12)) (after_question m flags question)
                  (any_caught-Returns (read_name m 12) (read_name-Returns m 12))
                  (λ asked h. after_question-Returns m flags question asked inside))))))
]
