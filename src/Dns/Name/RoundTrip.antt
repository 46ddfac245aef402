-- ===== src/Dns/Name/RoundTrip.antt =====
-- A name that is written is read back.
use bunmail.Prelude.{
  ℕ, zero, suc, ◌+◌, ◌-◌, ◌≤◌, ◌<◌, ◌≡◌, refl, sym, ap, ◌∙◌, List, [], ◌∷◌, ◌++◌, some, map, length,
  length-append, get_elem?, get_elem?-append, drop, drop-append, take-append, arith,
}
use mathlib.Core.List.{append_assoc, append-nil}
use bunmail.Dns.Bytes.{Bytes, slice, ascii_lower}
use bunmail.Dns.Query.{u8, put_labels}
use bunmail.Dns.Name.{ok, Cursor, stop, go, or_else, label, turn, read_from}
use bunmail.Dns.Name.Fuel.{wire_of}

-- A label as `nameLabels` leaves it: 1 to 63 bytes, in lower case.
abbrev pub Readable : List Bytes → Type 0
Readable [] = Unit
Readable (l ∷ ls) =
    (1 ≤ length l) × (length l ≤ 63) × (map u8 l ≡ l) × (ascii_lower l ≡ l) × Readable ls

-- A label that stands at the cursor is read.
module _ (pre l rest : Bytes) (s : Cursor) (here : s.at ≡ length pre) (some_bytes : 1 ≤ length l)
    (at_most : length l ≤ 63) (room : s.wire_bytes + (length l + 1) ≤ 255) where
  abbrev message : Bytes
  message = pre ++ (length l ∷ (l ++ rest))

  size_there : get_elem? message s.at ≡ some (length l)
  size_there = ground (arith, get_elem?-append pre (length l ∷ (l ++ rest)) 0)

  slice_there : slice message (s.at + 1) (s.at + 1 + length l) ≡ l
  slice_there =
      let cut : drop (s.at + 1) message ≡ l ++ rest =
        ground (arith, drop-append pre (length l ∷ (l ++ rest)) 1) in
      let span : s.at + 1 + length l - (s.at + 1) ≡ length l = omega arith in
      rw (span, cut) (take-append l rest)

  turn-label :
      turn message s
      ≡ go (record s {
        at = s.at + 1 + length l;
        wire_bytes = s.wire_bytes + (length l + 1);
        labels = s.labels ++ (ascii_lower l ∷ []);
      })
  unfolding turn label
  turn-label = ground (
    arith,
    size_there,
    slice_there,
    length-append pre (length l ∷ (l ++ rest)),
    length-append l rest,
  )

turn-root :
    (pre rest : Bytes) (s : Cursor)
    → s.at ≡ length pre
    → s.wire_bytes + 1 ≤ 255
    → turn (pre ++ (0 ∷ rest)) s
      ≡ stop (ok (record { labels = s.labels; next = or_else s.next (s.at + 1) }))
unfolding turn label
turn-root pre rest s here room = ground (arith, get_elem?-append pre (0 ∷ rest) 0)

-- From a cursor at labels that were written, in any message, the loop ends after them.
pub read_from-put_labels :
    (labels : List Bytes) (m pre rest : Bytes) (s : Cursor) (fuel : ℕ)
    → m ≡ pre ++ (put_labels labels ++ rest)
    → s.at ≡ length pre
    → Readable labels
    → s.wire_bytes + wire_of labels + 1 ≤ 255
    → length labels < fuel
    → read_from fuel m s
      ≡ ok (record {
        labels = s.labels ++ labels;
        next = or_else s.next (s.at + wire_of labels + 1);
      })
unfolding read_from
read_from-put_labels labels m pre rest s zero e here readable room enough = absurd (omega arith)
read_from-put_labels [] m pre rest s (suc fuel) e here readable room enough =
    rw (e, turn-root pre rest s here (omega arith)) (ground (arith, append-nil s.labels))
read_from-put_labels (l ∷ ls) m pre rest s (suc fuel) e here
      (some_bytes, at_most, bytes, lower, readable) room enough =
    let split : put_labels (l ∷ ls) ++ rest ≡ length l ∷ (l ++ (put_labels ls ++ rest)) =
      ground (arith, bytes, append_assoc l (put_labels ls) rest) in
    let s' : Cursor = record s {
      at = s.at + 1 + length l;
      wire_bytes = s.wire_bytes + (length l + 1);
      labels = s.labels ++ (ascii_lower l ∷ []);
    } in
    let step : read_from (suc fuel) m s ≡ read_from fuel m s' =
      rw
        (e, split, turn-label pre l (put_labels ls ++ rest) s here some_bytes at_most (omega arith))
        refl in
    let at_rest : m ≡ (pre ++ (length l ∷ l)) ++ (put_labels ls ++ rest) =
      e ∙ ap (◌++◌ pre) split ∙ sym (append_assoc pre (length l ∷ l) (put_labels ls ++ rest)) in
    step
    ∙ read_from-put_labels ls m (pre ++ (length l ∷ l)) rest s' fuel at_rest
        (omega (arith, length-append pre (length l ∷ l))) readable (omega arith) (omega arith)
    ∙ ground (arith, lower, append_assoc s.labels (l ∷ []) ls)
