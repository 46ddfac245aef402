-- ===== src/Dns/Response.antt =====
-- src/utils/dns-wire.ts: the strict parse of an untrusted response.
pub mod InRange
pub mod Total
pub mod Answer
pub mod RoundTrip
pub mod Whole
pub mod Ours
use bunmail.Prelude.{
  ℕ, zero, suc, ◌+◌, ◌-◌, ◌*◌, ◌/◌, ◌%◌, Bool, true, false, not, ◌&&◌, ◌||◌, List, [], ◌∷◌, ◌++◌,
  Option, none, some, any, length, leb, ltb, ◌==◌, if◌then◌else◌,
}
use bunmail.Dns.Bytes.{Bytes, byte, u16, u32, slice, bytes_eq}
use bunmail.Dns.Query.{TxtQuestion, type_cname, type_txt, type_opt, class_in}
use bunmail.Dns.Name.{
  Read, ok, malformed, range_error, out_of_fuel, ◌>>=◌, ReadName, read_name, dns_header_bytes,
}

abbrev pub max_cname_links : ℕ
max_cname_links = 16

pub data DnsTxtErrorCode : Type 0 where
  enotfound enodata eservfail erefused enotimp eformerr etimeout ebadresp econnrefused :
      DnsTxtErrorCode

pub data TxtResponseOutcome : Type 0 where
  mismatch truncated : TxtResponseOutcome
  records : List (List Bytes) → TxtResponseOutcome
  error : DnsTxtErrorCode → TxtResponseOutcome

-- `RCODE_ERRORS`, with `EBADRESP` for the codes that it does not list
abbrev pub rcode_error : ℕ → DnsTxtErrorCode
rcode_error rcode =
    if rcode == 1
    then eformerr
    else if rcode == 2
    then eservfail
    else if rcode == 3
    then enotfound
    else if rcode == 4
    then enotimp
    else if rcode == 5
    then erefused
    else ebadresp

-- `QUESTIONLESS_RCODES`
abbrev pub questionless : ℕ → Bool
questionless rcode = rcode == 1 || rcode == 2 || rcode == 4 || rcode == 5

-- `sameName`, and the equality of the keys that `nameKey` gives
abbrev pub same_name : List Bytes → List Bytes → Bool
same_name [] [] = true
same_name (x ∷ xs) (y ∷ ys) = bytes_eq x y && same_name xs ys
same_name _ _ = false

pub record ResourceRecord : Type 0 where
  pub owner : List Bytes
  pub type : ℕ
  pub rr_class : ℕ
  pub ttl : ℕ
  pub rdata_start : ℕ
  pub rdata_end : ℕ

-- A read of bytes before `end`, as `DataView` and `latin1` make it: past the message they throw.
abbrev pub in_message {ℓ} : {A : Type ℓ} → Bytes → ℕ → Read A → Read A
in_message m end r = if ltb (length m) end then range_error else r

abbrev pub record_at : Bytes → ReadName → Read ResourceRecord
record_at m name =
    if ltb (length m) (name.next + 10)
    then malformed
    else in_message m (name.next + 10) (
        if ltb (length m) (name.next + 10 + u16 m (name.next + 8))
        then malformed
        else in_message m (name.next + 8) (
            ok (record {
              owner = name.labels;
              type = u16 m name.next;
              rr_class = u16 m (name.next + 2);
              ttl = u32 m (name.next + 4);
              rdata_start = name.next + 10;
              rdata_end = name.next + 10 + u16 m (name.next + 8);
            })))

unfoldable pub read_record : Bytes → ℕ → Read ResourceRecord
read_record m start = read_name m start >>= record_at m

-- The loop of `txtStrings`, from `at` to `end`: every turn takes a byte at least.
unfoldable pub strings_from : ℕ → Bytes → ℕ → ℕ → Read (List Bytes)
strings_from zero m at end = if ltb at end then out_of_fuel else ok []
strings_from (suc fuel) m at end =
    let stop = at + 1 + byte m at in
    let rest = strings_from fuel m stop end in
    if ltb at end
    then (if ltb end stop
        then malformed
        else in_message m stop (rest >>= λ more. ok (slice m (at + 1) stop ∷ more)))
    else ok []

abbrev pub some_string : List Bytes → Read (List Bytes)
some_string [] = malformed
some_string (s ∷ ss) = ok (s ∷ ss)

unfoldable pub txt_strings : Bytes → ResourceRecord → Read (List Bytes)
unfolding strings_from
txt_strings m r =
    strings_from (r.rdata_end - r.rdata_start) m r.rdata_start r.rdata_end >>= some_string

-- The variables of the loop over the records.
pub record Sections : Type 0 where
  pub at : ℕ
  pub answers : List ResourceRecord
  pub opt_records : ℕ
  pub rcode : ℕ

-- One record, the `i`th, of which the first `answer_count` are answers and those from `additional`
-- on additional. The lower half of an extended RCODE is below 16, so `|` adds.
unfoldable pub take_record : ℕ → ℕ → ℕ → Sections → ResourceRecord → Read Sections
take_record answer_count additional i s r =
    if ltb i answer_count
    then ok (record s { at = r.rdata_end; answers = s.answers ++ (r ∷ []) })
    else if leb additional i && r.type == type_opt
    then (if ltb 1 (s.opt_records + 1) || not (length r.owner == 0)
        then malformed
        else ok (record s {
          at = r.rdata_end;
          opt_records = s.opt_records + 1;
          rcode = s.rcode + r.ttl / 16777216 * 16;
        }))
    else ok (record s { at = r.rdata_end })

-- `left` records from the `i`th on.
unfoldable pub read_records : ℕ → Bytes → ℕ → ℕ → ℕ → Sections → Read Sections
unfolding read_record take_record
read_records zero m answer_count additional i s = ok s
read_records (suc left) m answer_count additional i s =
    read_record m s.at
    >>= (λ r. take_record answer_count additional i s r)
    >>= read_records left m answer_count additional (suc i)

-- The map of CNAME targets by owner.
abbrev pub Targets : Type 0
Targets = List (List Bytes × List Bytes)

abbrev pub target_of : Targets → List Bytes → Option (List Bytes)
target_of [] owner = none
target_of ((o, t) ∷ ts) owner = if same_name o owner then some t else target_of ts owner

abbrev pub agrees : Option (List Bytes) → List Bytes → Bool
agrees none labels = true
agrees (some known) labels = same_name known labels

abbrev pub add_target : Targets → ResourceRecord → ReadName → Read Targets
add_target ts r target =
    if not (target.next == r.rdata_end)
    then malformed
    else if agrees (target_of ts r.owner) target.labels
    then ok ((r.owner, target.labels) ∷ ts)
    else malformed

unfoldable pub targets_of : Bytes → List ResourceRecord → Targets → Read Targets
targets_of m [] ts = ok ts
targets_of m (r ∷ rs) ts =
    (if r.type == type_cname && r.rr_class == class_in
      then read_name m r.rdata_start >>= add_target ts r
      else ok ts)
    >>= targets_of m rs

abbrev pub has_name : List (List Bytes) → List Bytes → Bool
has_name owners name = any (λ o. same_name o name) owners

-- The walk along the chain, with `left` links to go at most; `loop` goes on from a target.
abbrev pub no_link : List (List Bytes) → Option (List Bytes) → Read (List (List Bytes))
no_link owners none = ok owners
no_link owners (some t) = malformed

abbrev pub link :
    (List Bytes → List (List Bytes) → Read (List (List Bytes)))
    → List (List Bytes)
    → Option (List Bytes)
    → Read (List (List Bytes))
link loop owners none = ok owners
link loop owners (some t) = if has_name owners t then ok owners else loop t (t ∷ owners)

unfoldable pub walk : ℕ → Targets → List Bytes → List (List Bytes) → Read (List (List Bytes))
walk zero ts current owners = no_link owners (target_of ts current)
walk (suc left) ts current owners = link (walk left ts) owners (target_of ts current)

unfoldable pub chain_owners : Bytes → List ResourceRecord → List Bytes → Read (List (List Bytes))
unfolding targets_of walk
chain_owners m answers asked =
    targets_of m answers [] >>= λ ts. walk max_cname_links ts asked (asked ∷ [])

-- The loop that collects the TXT records.
unfoldable pub collect : Bytes → List (List Bytes) → List ResourceRecord → Read (List (List Bytes))
unfolding txt_strings
collect m owners [] = ok []
collect m owners (r ∷ rs) =
    let rest = collect m owners rs in
    if not (r.type == type_txt)
    then rest
    else txt_strings m r >>= λ strings.
        if r.rr_class == class_in && has_name owners r.owner
        then (rest >>= λ more. ok (strings ∷ more))
        else rest

abbrev pub found : List (List Bytes) → Read TxtResponseOutcome
found [] = ok (error enodata)
found (r ∷ rs) = ok (records (r ∷ rs))

abbrev pub answer : Bytes → TxtQuestion → Sections → Read TxtResponseOutcome
answer m question s =
    if not (s.rcode == 0)
    then ok (error (rcode_error s.rcode))
    else chain_owners m s.answers question.labels >>= λ owners. collect m owners s.answers >>= found

-- The three sections, of as many records as the header says.
unfoldable pub read_counted : ℕ → ℕ → ℕ → Bytes → ℕ → ℕ → TxtQuestion → Read TxtResponseOutcome
unfolding read_records
read_counted answers authorities additionals m start header_rcode question =
    read_records (answers + authorities + additionals) m answers (answers + authorities) 0
      (record { at = start; answers = []; opt_records = 0; rcode = header_rcode })
    >>= answer m question

unfoldable pub read_sections : Bytes → ℕ → ℕ → TxtQuestion → Read TxtResponseOutcome
unfolding read_counted
read_sections m start header_rcode question =
    in_message m 12 (read_counted (u16 m 6) (u16 m 8) (u16 m 10) m start header_rcode question)

-- `catch` of a `MalformedResponse`, which throws any other error on
abbrev pub caught : TxtResponseOutcome → Read TxtResponseOutcome → Read TxtResponseOutcome
caught instead (ok outcome) = ok outcome
caught instead malformed = ok instead
caught instead range_error = range_error
caught instead out_of_fuel = out_of_fuel

-- `catch` of any error, as of a malformed name
abbrev pub any_caught : Read ReadName → Read ReadName
any_caught (ok name) = ok name
any_caught malformed = malformed
any_caught range_error = malformed
any_caught out_of_fuel = out_of_fuel

-- From the question's name on. The reads of its type and class stand where any error is caught as a
-- mismatch, which the test before them gives too.
abbrev pub after_question : Bytes → ℕ → TxtQuestion → ReadName → Read TxtResponseOutcome
after_question m flags question asked =
    if ltb (length m) (asked.next + 4)
    then ok mismatch
    else if not (same_name asked.labels question.labels)
        || not (u16 m asked.next == type_txt)
        || not (u16 m (asked.next + 2) == class_in)
    then ok mismatch
    else if flags / 512 % 2 == 1
    then ok truncated
    else caught (error ebadresp) (read_sections m (asked.next + 4) (flags % 16) question)

unfoldable pub parse_txt_response : Bytes → TxtQuestion → Read TxtResponseOutcome
unfolding read_sections
parse_txt_response m question =
    if ltb (length m) dns_header_bytes
    then ok mismatch
    else let flags = u16 m 2 in
      in_message m 6 (
        if not (u16 m 0 == question.id)
          || not (flags / 32768 % 2 == 1)
          || not (flags / 2048 % 16 == 0)
        then ok mismatch
        else if u16 m 4 == 0 && questionless (flags % 16)
        then ok (error (rcode_error (flags % 16)))
        else if not (u16 m 4 == 1)
        then ok mismatch
        else caught mismatch
            (any_caught (read_name m dns_header_bytes) >>= after_question m flags question))
