-- ===== src/Dns/Response/Whole.antt =====
-- A whole answer that is written is read back.
use bunmail.Prelude.{
  ℕ, ◌+◌, ◌≤◌, ◌<◌, ◌≡◌, refl, sym, ap, ◌∙◌, true, false, List, [], ◌∷◌, ◌++◌, some, length,
  length-append, ltb, ◌==◌, arith, map,
}
use mathlib.Core.List.{append_assoc}
use bunmail.Dns.Bytes.{Bytes, u16}
use bunmail.Dns.Query.{TxtQuestion, type_txt, class_in, u8, put_u16, put_labels}
use bunmail.Dns.Name.{ok, ReadName, cursor_at, read_fuel, read_name, name_labels}
use bunmail.Dns.Name.Fuel.{wire_of}
use bunmail.Dns.Name.RoundTrip.{read_from-put_labels}
use bunmail.Dns.Name.Labels.{name_labels-Readable, length-le-wire_of}
use bunmail.Dns.Response.{
  TxtResponseOutcome, same_name, read_sections, after_question, parse_txt_response, records,
}
use bunmail.Dns.Response.Answer.{put_records, Sendable, u16_there}
use bunmail.Dns.Response.RoundTrip.{same_name_refl, read_sections-rows}

-- The header of an answer with `count` records, with QR, RD and RA set.
abbrev pub put_answer_header : ℕ → ℕ → Bytes
put_answer_header id count =
    put_u16 id ++ (put_u16 0x8180 ++ (put_u16 1 ++ (put_u16 count ++ (put_u16 0 ++ put_u16 0))))

abbrev pub put_answer : TxtQuestion → ℕ → List (List Bytes) → Bytes
put_answer question ttl rs =
    put_answer_header question.id (length rs)
    ++ (put_labels question.labels
        ++ (put_u16 type_txt ++ (put_u16 class_in ++ put_records ttl rs)))

length-put_labels : (labels : List Bytes) → length (put_labels labels) ≡ wire_of labels + 1
length-put_labels [] = refl
length-put_labels (l ∷ ls) =
    omega (arith, length-append (map u8 l) (put_labels ls), length-map l, length-put_labels ls)
  where
    length-map : (xs : Bytes) → length (map u8 xs) ≡ length xs
    length-map [] = refl
    length-map (x ∷ xs) = omega (arith, length-map xs)

-- A response to the question, with QR, RD and RA set, is read from its sections.
module _ (m : Bytes) (question : TxtQuestion) (asked : ReadName)
    (outcome : TxtResponseOutcome) where
  after_question_ours :
      asked.next + 4 ≤ length m
      → same_name asked.labels question.labels ≡ true
      → u16 m asked.next ≡ 16
      → u16 m (asked.next + 2) ≡ 1
      → read_sections m (asked.next + 4) 0 question ≡ ok outcome
      → after_question m 0x8180 question asked ≡ ok outcome
  after_question_ours fits same type class sections =
      let inside : ltb (length m) (asked.next + 4) ≡ false = ground arith in
      rw (inside, same, type, class, sections) refl

  parse_txt_response_ours :
      12 ≤ length m
      → u16 m 0 ≡ question.id
      → u16 m 2 ≡ 0x8180
      → u16 m 4 ≡ 1
      → read_name m 12 ≡ ok asked
      → after_question m 0x8180 question asked ≡ ok outcome
      → parse_txt_response m question ≡ ok outcome
  unfolding parse_txt_response
  parse_txt_response_ours size id flags one name after =
      let inside : ltb (length m) 12 ≡ false = ground arith in
      let same : (question.id == question.id) ≡ true = ground arith in
      let header_inside : ltb (length m) 6 ≡ false = ground arith in
      rw (inside, header_inside, id, flags, one, name, after, same) refl

-- A whole answer is read back: against a question for a host name's labels, the response with the
-- question's id and name, and TXT records owned by that name through a compression pointer, each of
-- one or more strings of at most 255 bytes, gives exactly those strings, record by record, when the
-- id, the number of records and the length of each record's data fit in 16 bits.
pub parse_txt_response-put_answer :
    (hostname : Bytes) (labels : List Bytes) (id ttl : ℕ) (rs : List (List Bytes))
    → name_labels hostname ≡ some labels
    → id < 65536
    → Sendable rs
    → 1 ≤ length rs
    → length rs < 65536
    → let question : TxtQuestion = record { id = id; labels = labels } in
      parse_txt_response (put_answer question ttl rs) question ≡ ok (records rs)
unfolding read_name
parse_txt_response-put_answer hostname labels id ttl rs h id_fits sendable some_one count =
    let (readable, short) = name_labels-Readable hostname labels h in
    let question : TxtQuestion = record { id = id; labels = labels } in
    let m = put_answer question ttl rs in
    let header = put_answer_header id (length rs) in
    let types : Bytes = 0 ∷ 16 ∷ 0 ∷ 1 ∷ [] in
    let qrest = types ++ put_records ttl rs in
    let pre = header ++ (put_labels labels ++ types) in
    let named = header ++ put_labels labels in
    let few = length-le-wire_of labels in
    let next = 12 + wire_of labels + 1 in
    let asked : ReadName = record { labels = labels; next = next } in
    let split : m ≡ named ++ qrest = sym (append_assoc header (put_labels labels) qrest) in
    let at_records : m ≡ pre ++ put_records ttl rs =
      ap (◌++◌ header) (sym (append_assoc (put_labels labels) types (put_records ttl rs))) in
    let named_size : length named ≡ next = omega (arith, length-put_labels labels) in
    let pre_size : length pre ≡ next + 4 =
      omega (arith, length-append (put_labels labels) types, length-put_labels labels) in
    let size : length m ≡ next + 4 + length (put_records ttl rs) =
      ap length at_records ∙ omega (arith, length-append pre (put_records ttl rs)) in
    let name : read_name m 12 ≡ ok asked =
      read_from-put_labels labels m header qrest (cursor_at 12) read_fuel refl refl readable
        (omega arith) (omega arith) in
    let type : u16 m next ≡ 16 = u16_there m named qrest next 0 split (omega arith) in
    let class : u16 m (next + 2) ≡ 1 = u16_there m named qrest (next + 2) 2 split (omega arith) in
    let sections : read_sections m (next + 4) 0 question ≡ ok (records rs) =
      (λ i. read_sections m (sym pre_size i) 0 question)
      ∙ read_sections-rows m header qrest labels refl refl readable short few ttl rs pre id
          at_records (omega arith) sendable some_one (omega arith) refl refl in
    parse_txt_response_ours m question asked (records rs) (omega arith) (omega arith) refl refl name
      (after_question_ours m question asked (records rs) (omega arith) (same_name_refl labels) type
        class sections)
