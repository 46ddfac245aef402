-- ===== src/Dns/Name/Labels.antt =====
-- The labels of a host name, and their query.
use bunmail.Prelude.{
  ℕ, suc, ◌+◌, ◌≤◌, ◌≡◌, refl, Bool, true, List, [], ◌∷◌, ◌++◌, some, ◌==◌, if◌then◌else◌, map, all,
  length, arith, Bool-cases, inl, inr,
}
use bunmail.Dns.Bytes.{Bytes, ascii_lower, length-ascii_lower, ascii_lower_idem}
use bunmail.Dns.Query.{
  u8, put_u16, put_labels, put_header, put_opt, type_txt, class_in, encode_query,
}
use bunmail.Dns.Name.{
  ok, cursor_at, read_fuel, read_name, unit_ok, label_ok, name_labels, strip_dot, split_dots,
  cons_head,
}
use bunmail.Dns.Name.Fuel.{wire_of}
use bunmail.Dns.Name.RoundTrip.{Readable, read_from-put_labels}

length-split_dots : (s : Bytes) → 1 ≤ length (split_dots s)
length-split_dots [] = omega arith
length-split_dots (c ∷ s) = elim (Bool-cases (c == b'.')) [
  | inl dot ↦ rw dot (omega arith)
  | inr unit ↦ rw unit (some_label c (split_dots s))
]
  where
    some_label : (c : ℕ) (ls : List Bytes) → 1 ≤ length (cons_head c ls)
    some_label c [] = omega arith
    some_label c (l ∷ ls) = omega arith

wire_of-cons_head :
    (c : ℕ) (ls : List Bytes) → 1 ≤ length ls → wire_of (cons_head c ls) ≡ suc (wire_of ls)
wire_of-cons_head c [] h = absurd (omega arith)
wire_of-cons_head c (l ∷ ls) h = omega arith

-- Each dot becomes the length byte of the label after it.
wire_of-split_dots : (s : Bytes) → wire_of (split_dots s) ≡ suc (length s)
wire_of-split_dots [] = omega arith
wire_of-split_dots (c ∷ s) =
    ground (arith, wire_of-split_dots s, wire_of-cons_head c (split_dots s) (length-split_dots s))

wire_of-map : (ls : List Bytes) → wire_of (map ascii_lower ls) ≡ wire_of ls
wire_of-map [] = refl
wire_of-map (l ∷ ls) = ground (arith, length-ascii_lower l, wire_of-map ls)

map-u8 : (l : Bytes) → all unit_ok l ≡ true → map u8 (ascii_lower l) ≡ ascii_lower l
unfolding ascii_lower
map-u8 [] h = refl
map-u8 (c ∷ l) h = ground (arith, map-u8 l)

Readable-map : (ls : List Bytes) → all label_ok ls ≡ true → Readable (map ascii_lower ls)
Readable-map [] h = tt
Readable-map (l ∷ ls) h = (
  ground (arith, length-ascii_lower l),
  ground (arith, length-ascii_lower l),
  map-u8 l (ground arith),
  ascii_lower_idem l,
  Readable-map ls (ground arith),
)

pub length-le-wire_of : (ls : List Bytes) → length ls ≤ wire_of ls
length-le-wire_of [] = omega arith
length-le-wire_of (l ∷ ls) = omega (arith, length-le-wire_of ls)

-- What `nameLabels` gives can be written and read.
pub name_labels-Readable :
    (hostname : Bytes) (labels : List Bytes)
    → name_labels hostname ≡ some labels
    → Readable labels × (wire_of labels ≤ 254)
unfolding name_labels
name_labels-Readable hostname labels h =
    let name = strip_dot hostname in
    let ls = split_dots name in
    elim (Bool-cases (all label_ok ls)) [
      | inl good ↦
          let same : map ascii_lower ls ≡ labels = ground arith in
          let short : length name ≤ 253 = ground arith in
          (
            rw (← same) (Readable-map ls good),
            rw (← same) (omega (arith, wire_of-map ls, wire_of-split_dots name)),
          )
      | inr bad ↦ absurd (ground arith)
    ]

-- The name of a query is read back: in the query for a host name's labels, with or without EDNS0,
-- reading at the end of the header gives just these labels, and the place of the question's type.
pub read_name-encode_query :
    (hostname : Bytes) (labels : List Bytes) (id : ℕ) (edns : Bool)
    → name_labels hostname ≡ some labels
    → read_name (encode_query (record { id = id; labels = labels }) edns) 12
      ≡ ok (record { labels = labels; next = 12 + wire_of labels + 1 })
unfolding read_name encode_query
read_name-encode_query hostname labels id edns h =
    let (readable, short) = name_labels-Readable hostname labels h in
    let rest = put_u16 type_txt ++ (put_u16 class_in ++ (if edns then put_opt else [])) in
    read_from-put_labels labels (put_header id edns ++ (put_labels labels ++ rest))
      (put_header id edns) rest (cursor_at 12) read_fuel refl refl readable (omega arith)
      (omega (arith, length-le-wire_of labels))
