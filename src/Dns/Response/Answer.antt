-- ===== src/Dns/Response/Answer.antt =====
-- A well-formed answer, as a server writes it, byte for byte: what the parse must read back.
use bunmail.Prelude.{
  ℕ, zero, suc, ◌+◌, ◌-◌, ◌*◌, ◌/◌, ◌%◌, ◌≤◌, ◌<◌, ◌≡◌, refl, sym, ap, ap₂, ◌∙◌, List, [], ◌∷◌,
  ◌++◌, some, length, length-append, get_elem?, get_elem?-append, drop, drop-append, take-append,
  ltb, false, arith,
}
use mathlib.Core.List.{append_assoc}
use bunmail.Dns.Bytes.{Bytes, or_zero, byte, u16, slice}
use bunmail.Dns.Query.{type_txt, class_in, put_labels}
use bunmail.Dns.Name.{
  ok, Cursor, go, jump, turn, follow, read_from, cursor_at, read_fuel, read_name,
}
use bunmail.Dns.Name.Fuel.{wire_of}
use bunmail.Dns.Name.RoundTrip.{Readable, read_from-put_labels}
use bunmail.Dns.Response.{ResourceRecord, read_record, strings_from, some_string, txt_strings}

-- The strings of one record, and the data of that record.
abbrev pub put_strings : List Bytes → Bytes
put_strings [] = []
put_strings (s ∷ ss) = length s ∷ (s ++ put_strings ss)

-- A record of type TXT that is owned by the name at the end of the header.
abbrev pub put_record : ℕ → List Bytes → Bytes → Bytes
put_record ttl ss rest =
    0xc0
    ∷ 0x0c
    ∷ 0
    ∷ 16
    ∷ 0
    ∷ 1
    ∷ ttl / 16777216
    ∷ ttl / 65536 % 256
    ∷ ttl / 256 % 256
    ∷ ttl % 256
    ∷ length (put_strings ss) / 256
    ∷ length (put_strings ss) % 256
    ∷ (put_strings ss ++ rest)

abbrev pub put_records : ℕ → List (List Bytes) → Bytes
put_records ttl [] = []
put_records ttl (ss ∷ rs) = put_record ttl ss (put_records ttl rs)

-- Strings of at most 255 bytes, one at least, within the length of a record's data.
abbrev pub ShortStrings : List Bytes → Type 0
ShortStrings [] = Unit
ShortStrings (s ∷ ss) = (length s ≤ 255) × ShortStrings ss

abbrev pub Sendable : List (List Bytes) → Type 0
Sendable [] = Unit
Sendable (ss ∷ rs) =
    (1 ≤ length ss) × ShortStrings ss × (length (put_strings ss) < 65536) × Sendable rs

-- The byte at a place after a prefix.
byte_there : (pre ys : Bytes) (i k : ℕ) → i ≡ length pre + k → byte (pre ++ ys) i ≡ byte ys k
byte_there pre ys i k e = rw e (ap or_zero (get_elem?-append pre ys k))

pub u16_there :
    (m pre ys : Bytes) (i k : ℕ) → m ≡ pre ++ ys → i ≡ length pre + k → u16 m i ≡ u16 ys k
u16_there m pre ys i k e h = rw e (
    ap₂ (λ hi lo. hi * 256 + lo) (byte_there pre ys i k h)
      (byte_there pre ys (i + 1) (k + 1) (omega arith)))

-- The strings of a record are read back.
strings_from-put_strings :
    (ss : List Bytes) (m pre rest : Bytes) (at end fuel : ℕ)
    → m ≡ pre ++ (put_strings ss ++ rest)
    → at ≡ length pre
    → end ≡ at + length (put_strings ss)
    → length (put_strings ss) ≤ fuel
    → strings_from fuel m at end ≡ ok ss
unfolding strings_from
strings_from-put_strings [] m pre rest at end zero e here span enough = ground arith
strings_from-put_strings [] m pre rest at end (suc fuel) e here span enough = ground arith
strings_from-put_strings (s ∷ ss) m pre rest at end zero e here span enough = absurd (omega arith)
strings_from-put_strings (s ∷ ss) m pre rest at end (suc fuel) e here span enough =
    let tail = put_strings ss ++ rest in
    let split : m ≡ pre ++ (length s ∷ (s ++ tail)) =
      ground (arith, e, append_assoc s (put_strings ss) rest) in
    let size : byte m at ≡ length s =
      rw split (byte_there pre (length s ∷ (s ++ tail)) at 0 (omega arith)) in
    let cut : drop (at + 1) m ≡ s ++ tail =
      ground (arith, drop-append pre (length s ∷ (s ++ tail)) 1) in
    let text : slice m (at + 1) (at + 1 + length s) ≡ s =
      (let span' : at + 1 + length s - (at + 1) ≡ length s = omega arith in
        rw (span', cut) (take-append s tail)) in
    let inside : ltb (length m) (at + 1 + length s) ≡ false =
      ground (
        arith,
        ap length split,
        length-append pre (length s ∷ (s ++ tail)),
        length-append s tail,
      ) in
    let at_rest : m ≡ (pre ++ (length s ∷ s)) ++ tail =
      split ∙ sym (append_assoc pre (length s ∷ s) tail) in
    let more =
      strings_from-put_strings ss m (pre ++ (length s ∷ s)) rest (at + 1 + length s) end fuel
        at_rest (omega (arith, length-append pre (length s ∷ s)))
        (omega (arith, length-append s (put_strings ss)))
        (omega (arith, length-append s (put_strings ss))) in
    ground (arith, size, text, more, inside, length-append s (put_strings ss))

-- A message with the question's name at the end of the header.
module _ (m header qrest : Bytes) (labels : List Bytes)
    (asked : m ≡ header ++ (put_labels labels ++ qrest)) (header_size : length header ≡ 12)
    (readable : Readable labels) (short : wire_of labels ≤ 254)
    (few : length labels ≤ wire_of labels) where
  -- The owner of a record that points there.
  read_name-pointer :
      (pre rest : Bytes)
      → m ≡ pre ++ (0xc0 ∷ 0x0c ∷ rest)
      → 12 < length pre
      → read_name m (length pre) ≡ ok (record { labels = labels; next = length pre + 2 })
  unfolding read_name read_from turn jump
  read_name-pointer pre rest e far =
      let high : get_elem? m (length pre) ≡ some 0xc0 =
        ground (arith, e, get_elem?-append pre (0xc0 ∷ 0x0c ∷ rest) 0) in
      let low : get_elem? m (length pre + 1) ≡ some 0x0c =
        rw e (get_elem?-append pre (0xc0 ∷ 0x0c ∷ rest) 1) in
      let s : Cursor = record {
        at = 12;
        next = some (length pre + 2);
        wire_bytes = 0;
        jumps = 1;
        labels = [];
      } in
      let first : turn m (cursor_at (length pre)) ≡ go s = ground (arith, high, low) in
      let step : read_from read_fuel m (cursor_at (length pre)) ≡ read_from 287 m s =
        ap (follow (read_from 287 m)) first in
      step
      ∙ read_from-put_labels labels m header qrest s 287 asked (sym header_size) readable
          (omega arith) (omega arith)

  -- The record that is written at a place, as it is read.
  abbrev pub row_at : ℕ → List Bytes → ℕ → ResourceRecord
  row_at ttl ss at = record {
    owner = labels;
    type = type_txt;
    rr_class = class_in;
    ttl = (ttl / 16777216 * 256 + ttl / 65536 % 256) * 65536 + (ttl / 256 % 256 * 256 + ttl % 256);
    rdata_start = at + 12;
    rdata_end = at + 12 + length (put_strings ss);
  }

  module _ (pre rest : Bytes) (ttl : ℕ) (ss : List Bytes) (e : m ≡ pre ++ put_record ttl ss rest)
      (far : 12 < length pre) (fits : length (put_strings ss) < 65536) where
    abbrev rest_of_record : Bytes
    rest_of_record =
        0
        ∷ 16
        ∷ 0
        ∷ 1
        ∷ ttl / 16777216
        ∷ ttl / 65536 % 256
        ∷ ttl / 256 % 256
        ∷ ttl % 256
        ∷ length (put_strings ss) / 256
        ∷ length (put_strings ss) % 256
        ∷ (put_strings ss ++ rest)

    size_there : length m ≡ length pre + 12 + length (put_strings ss) + length rest
    size_there = rw e (
        omega
          (arith, length-append pre (put_record ttl ss rest), length-append (put_strings ss) rest))

    pub read_record-put_record : read_record m (length pre) ≡ ok (row_at ttl ss (length pre))
    unfolding read_record
    read_record-put_record =
        let at = length pre in
        let body = put_record ttl ss rest in
        ground (
          arith,
          read_name-pointer pre rest_of_record e far,
          u16_there m pre body (at + 2) 2 e (omega arith),
          u16_there m pre body (at + 2 + 2) 4 e (omega arith),
          u16_there m pre body (at + 2 + 4) 6 e (omega arith),
          u16_there m pre body (at + 2 + 4 + 2) 8 e (omega arith),
          u16_there m pre body (at + 2 + 8) 10 e (omega arith),
          size_there,
        )

    pub txt_strings-put_record : 1 ≤ length ss → txt_strings m (row_at ttl ss (length pre)) ≡ ok ss
    unfolding txt_strings
    txt_strings-put_record some_one =
        let at = length pre in
        let fixed : Bytes =
          0xc0
          ∷ 0x0c
          ∷ 0
          ∷ 16
          ∷ 0
          ∷ 1
          ∷ ttl / 16777216
          ∷ ttl / 65536 % 256
          ∷ ttl / 256 % 256
          ∷ ttl % 256
          ∷ length (put_strings ss) / 256
          ∷ length (put_strings ss) % 256
          ∷ [] in
        let strings =
          strings_from-put_strings ss m (pre ++ fixed) rest (at + 12)
            (at + 12 + length (put_strings ss)) (at + 12 + length (put_strings ss) - (at + 12))
            (e ∙ sym (append_assoc pre fixed (put_strings ss ++ rest)))
            (omega (arith, length-append pre fixed)) (omega arith) (omega arith) in
        rw strings (kept ss some_one)
      where
        kept : (xs : List Bytes) → 1 ≤ length xs → some_string xs ≡ ok xs
        kept [] h = absurd (omega arith)
        kept (x ∷ xs) h = refl
