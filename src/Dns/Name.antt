-- ===== src/Dns/Name.antt =====
-- src/utils/dns-wire.ts: names, in text and on the wire.
pub mod Fuel
pub mod RoundTrip
pub mod Labels
use bunmail.Prelude.{
  ℕ, zero, suc, ◌+◌, ◌*◌, ◌/◌, ◌%◌, Bool, true, false, not, ◌&&◌, ◌||◌, List, [], ◌∷◌, ◌++◌, Option,
  none, some, map, all, length, leb, ltb, ◌==◌, if◌then◌else◌, get_elem?,
}
use bunmail.Dns.Bytes.{Bytes, slice, ascii_lower}

abbrev pub dns_header_bytes : ℕ
dns_header_bytes = 12

abbrev pub max_name_wire_bytes : ℕ
max_name_wire_bytes = 255

abbrev pub max_name_text_length : ℕ
max_name_text_length = 253

abbrev pub max_label_length : ℕ
max_label_length = 63

abbrev pub max_pointer_jumps : ℕ
max_pointer_jumps = 32

-- `hostname` without one trailing dot
abbrev pub strip_dot : Bytes → Bytes
strip_dot [] = []
strip_dot (c ∷ []) = if c == b'.' then [] else c ∷ []
strip_dot (c ∷ d ∷ cs) = c ∷ strip_dot (d ∷ cs)

abbrev pub cons_head : ℕ → List Bytes → List Bytes
cons_head c [] = (c ∷ []) ∷ []
cons_head c (l ∷ ls) = (c ∷ l) ∷ ls

-- `name.split(".")`
abbrev pub split_dots : Bytes → List Bytes
split_dots [] = [] ∷ []
split_dots (c ∷ cs) = if c == b'.' then [] ∷ split_dots cs else cons_head c (split_dots cs)

abbrev pub unit_ok : ℕ → Bool
unit_ok c = leb 0x21 c && leb c 0x7e && not (c == 0x5c)

abbrev pub label_ok : Bytes → Bool
label_ok l = not (length l == 0) && leb (length l) max_label_length && all unit_ok l

unfoldable pub name_labels : Bytes → Option (List Bytes)
name_labels hostname =
    let name = strip_dot hostname in
    if length name == 0 || ltb max_name_text_length (length name)
    then none
    else let labels = split_dots name in
      if all label_ok labels then some (map ascii_lower labels) else none

-- `MalformedResponse` is an error, and so is the `RangeError` of a read past the message;
-- `out_of_fuel` belongs to the model only.
pub data Read {ℓ} (A : Type ℓ) : Type ℓ where
  ok : A → Read A
  malformed : Read A
  range_error : Read A
  out_of_fuel : Read A

infixl 5 ◌>>=◌
abbrev pub ◌>>=◌ {ℓ κ} : {A : Type ℓ} {B : Type κ} → Read A → (A → Read B) → Read B
ok a >>= f = f a
malformed >>= f = malformed
range_error >>= f = range_error
out_of_fuel >>= f = out_of_fuel

-- The variables of the loop of `readName`.
pub record Cursor : Type 0 where
  pub at : ℕ
  pub next : Option ℕ
  pub wire_bytes : ℕ
  pub jumps : ℕ
  pub labels : List Bytes

pub record ReadName : Type 0 where
  pub labels : List Bytes
  pub next : ℕ

pub data Turn : Type 0 where
  stop : Read ReadName → Turn
  go : Cursor → Turn

abbrev pub or_else : Option ℕ → ℕ → ℕ
or_else none n = n
or_else (some m) n = m

-- A compression pointer to `target`.
unfoldable pub jump : Cursor → ℕ → Turn
jump s target =
    if leb s.at target || ltb target dns_header_bytes
    then stop malformed
    else if ltb max_pointer_jumps (s.jumps + 1)
    then stop malformed
    else go (record s { at = target; next = some (or_else s.next (s.at + 2)); jumps = s.jumps + 1 })

-- A label of `length` bytes, or the root at length 0. `latin1` throws where its end lies past the
-- message.
unfoldable pub label : Bytes → Cursor → ℕ → Turn
label m s size =
    if ltb max_name_wire_bytes (s.wire_bytes + (size + 1))
    then stop malformed
    else if size == 0
    then stop (ok (record { labels = s.labels; next = or_else s.next (s.at + 1) }))
    else if ltb (length m) (s.at + 1 + size)
    then stop malformed
    else if ltb (length m) (s.at + 1 + size)
    then stop range_error
    else go (record s {
      at = s.at + 1 + size;
      wire_bytes = s.wire_bytes + (size + 1);
      labels = s.labels ++ (ascii_lower (slice m (s.at + 1) (s.at + 1 + size)) ∷ []);
    })

-- A pointer of two bytes, if the second is there.
abbrev pub pointer : Cursor → ℕ → Option ℕ → Turn
pointer s size none = stop malformed
pointer s size (some low) = jump s (size % 64 * 256 + low)

-- One turn of the loop, on the byte that stands at the cursor.
abbrev pub turn_on : Bytes → Cursor → Option ℕ → Turn
turn_on m s none = stop malformed
turn_on m s (some size) =
    if size / 64 == 3
    then pointer s size (get_elem? m (s.at + 1))
    else if not (size / 64 == 0)
    then stop malformed
    else label m s size

unfoldable pub turn : Bytes → Cursor → Turn
turn m s = turn_on m s (get_elem? m s.at)

abbrev pub follow : (Cursor → Read ReadName) → Turn → Read ReadName
follow loop (stop r) = r
follow loop (go s) = loop s

unfoldable pub read_from : ℕ → Bytes → Cursor → Read ReadName
read_from zero m s = out_of_fuel
read_from (suc fuel) m s = follow (read_from fuel m) (turn m s)

abbrev pub cursor_at : ℕ → Cursor
cursor_at start = record { at = start; next = none; wire_bytes = 0; jumps = 0; labels = [] }

-- Every turn uses up a pointer or a byte of the name, or ends the loop.
abbrev pub read_fuel : ℕ
read_fuel = max_pointer_jumps + max_name_wire_bytes + 1

unfoldable pub read_name : Bytes → ℕ → Read ReadName
unfolding read_from
read_name m start = read_from read_fuel m (cursor_at start)
