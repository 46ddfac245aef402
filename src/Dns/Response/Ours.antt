-- ===== src/Dns/Response/Ours.antt =====
-- What a response says that is taken for an answer.
use bunmail.Prelude.{
  ℕ, ◌+◌, ◌/◌, ◌%◌, ◌≤◌, ◌≡◌, refl, Bool, true, false, not, ◌&&◌, ◌||◌, List, [], ◌∷◌, length, ltb,
  ◌==◌, if◌then◌else◌, arith,
}
use bunmail.Dns.Bytes.{Bytes, u16, bytes_eq_sound}
use bunmail.Dns.Query.{TxtQuestion, type_txt, class_in}
use bunmail.Dns.Name.{Read, ok, malformed, range_error, out_of_fuel, ◌>>=◌, ReadName, read_name}
use bunmail.Dns.Response.{
  TxtResponseOutcome, mismatch, truncated, records, error, ebadresp, questionless, same_name,
  read_sections, caught, any_caught, after_question, parse_txt_response,
}

same_name_sound : (xs ys : List Bytes) → same_name xs ys ≡ true → xs ≡ ys
same_name_sound [] [] h = refl
same_name_sound [] (y ∷ ys) h = cc
same_name_sound (x ∷ xs) [] h = cc
same_name_sound (x ∷ xs) (y ∷ ys) h = ground (arith, bytes_eq_sound x y, same_name_sound xs ys)

-- The message echoes the question.
abbrev pub Echoes : Bytes → TxtQuestion → ReadName → Type 0
Echoes m question asked =
    (read_name m 12 ≡ ok asked)
    × (asked.labels ≡ question.labels)
    × (asked.next + 4 ≤ length m)
    × (u16 m asked.next ≡ 16)
    × (u16 m (asked.next + 2) ≡ 1)

-- The branch that is left when the other gives no records.
else_of :
    (b : Bool) (x y : Read TxtResponseOutcome) (rs : List (List Bytes))
    → ¬ x ≡ ok (records rs)
    → (if b then x else y) ≡ ok (records rs)
    → (b ≡ false) × (y ≡ ok (records rs))
else_of true x y rs other h = absurd (other h)
else_of false x y rs other h = (refl, h)

neither : (a b : Bool) → (a || b) ≡ false → (a ≡ false) × (b ≡ false)
neither a b h = ground arith

equal_of : (a b : ℕ) → not (a == b) ≡ false → a ≡ b
equal_of a b h = ground arith

bit_clear : (n : ℕ) → (n % 2 == 1) ≡ false → n % 2 ≡ 0
bit_clear n h = ground arith

after_question-records :
    (m : Bytes) (flags : ℕ) (question : TxtQuestion) (asked : ReadName) (rs : List (List Bytes))
    → read_name m 12 ≡ ok asked
    → after_question m flags question asked ≡ ok (records rs)
    → (flags / 512 % 2 ≡ 0) × Echoes m question asked
after_question-records m flags question asked rs name h =
    let sections = read_sections m (asked.next + 4) (flags % 16) question in
    let (inside, h1) = else_of (ltb (length m) (asked.next + 4)) _ _ rs (λ e. cc) h in
    let (echo, h2) =
      else_of
        (not (same_name asked.labels question.labels)
          || not (u16 m asked.next == type_txt)
          || not (u16 m (asked.next + 2) == class_in))
        _ _ rs (λ e. cc) h1 in
    let (whole, h3) =
      else_of (flags / 512 % 2 == 1) (ok truncated) (caught (error ebadresp) sections) rs (λ e. cc)
        h2 in
    let (names, others) =
      neither (not (same_name asked.labels question.labels) || not (u16 m asked.next == type_txt)) _
        echo in
    let (named, typed) = neither (not (same_name asked.labels question.labels)) _ names in
    (
      bit_clear (flags / 512) whole,
      (
        name,
        same_name_sound asked.labels question.labels
            (kept (same_name asked.labels question.labels) named),
        fits (length m) (asked.next + 4) inside,
        equal_of (u16 m asked.next) type_txt typed,
        equal_of (u16 m (asked.next + 2)) class_in others,
      ),
    )
  where
    kept : (b : Bool) → not b ≡ false → b ≡ true
    kept b h = ground arith

    fits : (a b : ℕ) → ltb a b ≡ false → b ≤ a
    fits a b h = ground arith

caught-records :
    (instead : TxtResponseOutcome) (r : Read TxtResponseOutcome) (rs : List (List Bytes))
    → ¬ instead ≡ records rs
    → caught instead r ≡ ok (records rs)
    → r ≡ ok (records rs)
caught-records instead (ok outcome) rs other h = h
caught-records instead malformed rs other h = absurd (other cc)
caught-records instead range_error rs other h = h
caught-records instead out_of_fuel rs other h = h

any_caught-ok : (r : Read ReadName) (asked : ReadName) → any_caught r ≡ ok asked → r ≡ ok asked
any_caught-ok (ok name) asked h = h
any_caught-ok malformed asked h = h
any_caught-ok range_error asked h = cc
any_caught-ok out_of_fuel asked h = h

>>=-records :
    (r : Read ReadName) (k : ReadName → Read TxtResponseOutcome) (rs : List (List Bytes))
    → (r >>= k) ≡ ok (records rs)
    → (asked : ReadName) × (r ≡ ok asked) × (k asked ≡ ok (records rs))
>>=-records (ok asked) k rs h = (asked, refl, h)
>>=-records malformed k rs h = cc
>>=-records range_error k rs h = cc
>>=-records out_of_fuel k rs h = cc

-- Records are taken only from a response that is ours: it has the query's id, it is marked as a
-- response to a standard query and as whole, and it has one question, which is read back as the name
-- that was asked, type TXT and class IN.
pub parse_txt_response-Echoes :
    (m : Bytes) (question : TxtQuestion) (rs : List (List Bytes))
    → parse_txt_response m question ≡ ok (records rs)
    → (u16 m 0 ≡ question.id)
      × (u16 m 2 / 32768 % 2 ≡ 1)
      × (u16 m 2 / 2048 % 16 ≡ 0)
      × (u16 m 2 / 512 % 2 ≡ 0)
      × (u16 m 4 ≡ 1)
      × ((asked : ReadName) × Echoes m question asked)
unfolding parse_txt_response
parse_txt_response-Echoes m question rs h =
    let flags = u16 m 2 in
    let wrong =
      not (u16 m 0 == question.id)
      || not (flags / 32768 % 2 == 1)
      || not (flags / 2048 % 16 == 0) in
    let (_, h1) = else_of (ltb (length m) 12) _ _ rs (λ e. cc) h in
    let (_, hw) = else_of (ltb (length m) 6) _ _ rs (λ e. cc) h1 in
    let (right, h2) = else_of wrong _ _ rs (λ e. cc) hw in
    let (_, h3) = else_of (u16 m 4 == 0 && questionless (flags % 16)) _ _ rs (λ e. cc) h2 in
    let (one, h4) = else_of (not (u16 m 4 == 1)) _ _ rs (λ e. cc) h3 in
    let h5 =
      caught-records mismatch (any_caught (read_name m 12) >>= after_question m flags question) rs
        (λ e. cc) h4 in
    let (asked, found, h6) =
      >>=-records (any_caught (read_name m 12)) (after_question m flags question) rs h5 in
    let name = any_caught-ok (read_name m 12) asked found in
    let (whole, echo) = after_question-records m flags question asked rs name h6 in
    let (mine, standard) =
      neither (not (u16 m 0 == question.id) || not (flags / 32768 % 2 == 1)) _ right in
    let (same, response) = neither (not (u16 m 0 == question.id)) _ mine in
    (
      equal_of (u16 m 0) question.id same,
      equal_of (flags / 32768 % 2) 1 response,
      equal_of (flags / 2048 % 16) 0 standard,
      whole,
      equal_of (u16 m 4) 1 one,
      (asked, echo),
    )
