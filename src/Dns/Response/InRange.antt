-- ===== src/Dns/Response/InRange.antt =====
-- The records of a response are read in range, and their reading ends.
use bunmail.Prelude.{
  ℕ, zero, suc, ◌+◌, ◌-◌, ◌≤◌, ◌≡◌, Bool, true, false, not, ◌&&◌, ◌||◌, List, [], ◌∷◌, length, leb,
  ltb, ◌==◌, if◌then◌else◌, arith, ◌++◌, All, Bool-cases, inl, inr,
}
use bunmail.Dns.Bytes.{Bytes, byte, u16, slice}
use bunmail.Dns.Query.{type_opt}
use bunmail.Dns.Name.{Read, ok, malformed, range_error, out_of_fuel, ◌>>=◌, ReadName, read_name}
use bunmail.Dns.Name.Fuel.{IsRead, read_name-IsRead}
use bunmail.Dns.Response.{
  ResourceRecord, in_message, record_at, read_record, strings_from, some_string, txt_strings,
  Sections, take_record, read_records,
}

-- A read that ends with a value for which `P` holds, or is refused as malformed.
abbrev pub Returns {ℓ} : {A : Type ℓ} → (A → Type 0) → Read A → Type 0
Returns P (ok a) = P a
Returns P malformed = Unit
Returns P range_error = ⊥
Returns P out_of_fuel = ⊥

abbrev pub Any {ℓ} : {A : Type ℓ} → A → Type 0
Any a = Unit

pub >>=-Returns {ℓ κ} :
    {A : Type ℓ} {B : Type κ} (P : A → Type 0) (Q : B → Type 0) (m : Read A) (f : A → Read B)
    → Returns P m
    → ((a : A) → P a → Returns Q (f a))
    → Returns Q (m >>= f)
>>=-Returns P Q (ok a) f h k = k a h
>>=-Returns P Q malformed f h k = tt
>>=-Returns P Q range_error f h k = absurd h
>>=-Returns P Q out_of_fuel f h k = absurd h

pub if_Returns {ℓ} :
    {A : Type ℓ} (P : A → Type 0) (b : Bool) (x y : Read A)
    → Returns P x
    → Returns P y
    → Returns P (if b then x else y)
if_Returns P true x y h k = h
if_Returns P false x y h k = k

-- A read in range.
pub in_message-Returns {ℓ} :
    {A : Type ℓ} (P : A → Type 0) (m : Bytes) (end : ℕ) (r : Read A)
    → end ≤ length m
    → Returns P r
    → Returns P (in_message m end r)
in_message-Returns P m end r inside h =
    let fits : ltb (length m) end ≡ false = ground arith in rw fits h

-- The branch after a test that the message is long enough.
fits_Returns {ℓ} :
    {A : Type ℓ} (P : A → Type 0) (m : Bytes) (end : ℕ) (x y : Read A)
    → Returns P x
    → (end ≤ length m → Returns P y)
    → Returns P (if ltb (length m) end then x else y)
fits_Returns P m end x y h k = elim (Bool-cases (ltb (length m) end)) [
  | inl past ↦ rw past h
  | inr inside ↦ rw inside (k (ground arith))
]

pub read_name-Returns : (m : Bytes) (start : ℕ) → Returns Any (read_name m start)
read_name-Returns m start = of_IsRead (read_name m start) (read_name-IsRead m start)
  where
    of_IsRead : (r : Read ReadName) → IsRead m r → Returns Any r
    of_IsRead (ok a) h = tt
    of_IsRead malformed h = tt
    of_IsRead range_error h = h
    of_IsRead out_of_fuel h = h

-- The data of a record that is read ends within the message.
abbrev pub InMessage : Bytes → ResourceRecord → Type 0
InMessage m r = r.rdata_end ≤ length m

record_at-Returns : (m : Bytes) (name : ReadName) → Returns (InMessage m) (record_at m name)
record_at-Returns m name = fits_Returns (InMessage m) m (name.next + 10) _ _ tt (λ header.
    in_message-Returns (InMessage m) m (name.next + 10) _ header (
      fits_Returns (InMessage m) m (name.next + 10 + u16 m (name.next + 8)) _ _ tt
        (λ all. in_message-Returns (InMessage m) m (name.next + 8) _ (omega (arith, header)) all)))

read_record-Returns : (m : Bytes) (start : ℕ) → Returns (InMessage m) (read_record m start)
unfolding read_record
read_record-Returns m start =
    >>=-Returns Any (InMessage m) (read_name m start) (record_at m) (read_name-Returns m start)
      (λ name h. record_at-Returns m name)

strings_from-Returns :
    (fuel : ℕ) (m : Bytes) (at end : ℕ)
    → end ≤ at + fuel
    → end ≤ length m
    → Returns Any (strings_from fuel m at end)
unfolding strings_from
strings_from-Returns zero m at end h inside = ground arith
strings_from-Returns (suc fuel) m at end h inside =
    let stop = at + 1 + byte m at in
    if_Returns Any (ltb at end) _ _
      (elim (Bool-cases (ltb end stop)) [
        | inl past ↦ rw past tt
        | inr within_data ↦ rw within_data (
            in_message-Returns Any m stop _ (ground (arith, within_data)) (
              >>=-Returns Any Any (strings_from fuel m stop end)
                (λ more. ok (slice m (at + 1) stop ∷ more))
                (strings_from-Returns fuel m stop end (omega arith) inside) (λ more k. tt)))
      ])
      tt

pub txt_strings-Returns :
    (m : Bytes) (r : ResourceRecord) → InMessage m r → Returns Any (txt_strings m r)
unfolding txt_strings
txt_strings-Returns m r inside =
    >>=-Returns Any Any (strings_from (r.rdata_end - r.rdata_start) m r.rdata_start r.rdata_end)
      some_string
      (strings_from-Returns (r.rdata_end - r.rdata_start) m r.rdata_start r.rdata_end (omega arith)
        inside)
      (λ ss h. some_string-Returns ss)
  where
    some_string-Returns : (ss : List Bytes) → Returns Any (some_string ss)
    some_string-Returns [] = tt
    some_string-Returns (s ∷ ss) = tt

-- All answers that were read lie within the message.
abbrev pub AnswersIn : Bytes → Sections → Type 0
AnswersIn m s = All (InMessage m) s.answers

AnswersIn-snoc :
    (m : Bytes) (rs : List ResourceRecord) (r : ResourceRecord)
    → All (InMessage m) rs
    → InMessage m r
    → All (InMessage m) (rs ++ (r ∷ []))
AnswersIn-snoc m [] r h k = (k, tt)
AnswersIn-snoc m (x ∷ rs) r (here, h) k = (here, AnswersIn-snoc m rs r h k)

take_record-Returns :
    (m : Bytes) (answer_count additional i : ℕ) (s : Sections) (r : ResourceRecord)
    → AnswersIn m s
    → InMessage m r
    → Returns (AnswersIn m) (take_record answer_count additional i s r)
unfolding take_record
take_record-Returns m answer_count additional i s r h inside =
    if_Returns (AnswersIn m) (ltb i answer_count) _ _ (AnswersIn-snoc m s.answers r h inside) (
      if_Returns (AnswersIn m) (leb additional i && r.type == type_opt) _ _
        (if_Returns (AnswersIn m) (ltb 1 (s.opt_records + 1) || not (length r.owner == 0)) _ _ tt h)
        h)

pub read_records-Returns :
    (left : ℕ) (m : Bytes) (answer_count additional i : ℕ) (s : Sections)
    → AnswersIn m s
    → Returns (AnswersIn m) (read_records left m answer_count additional i s)
unfolding read_records
read_records-Returns zero m answer_count additional i s h = h
read_records-Returns (suc left) m answer_count additional i s h =
    >>=-Returns (AnswersIn m) (AnswersIn m)
      (read_record m s.at >>= (λ r. take_record answer_count additional i s r))
      (read_records left m answer_count additional (suc i))
      (>>=-Returns (InMessage m) (AnswersIn m) (read_record m s.at)
        (λ r. take_record answer_count additional i s r) (read_record-Returns m s.at)
        (λ r inside. take_record-Returns m answer_count additional i s r h inside))
      (λ s' h'. read_records-Returns left m answer_count additional (suc i) s' h')
