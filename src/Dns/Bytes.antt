-- ===== src/Dns/Bytes.antt =====
-- src/utils/dns-wire.ts: bytes and texts. A text is its UTF-16 code units, and a text that is read
-- as latin1 its bytes.
use bunmail.Prelude.{
  ℕ, ◌+◌, ◌-◌, ◌*◌, ◌≡◌, Bool, true, false, ◌&&◌, List, [], ◌∷◌, Option, none, some, map, leb, ◌==◌,
  if◌then◌else◌, get_elem?, take, drop, arith, refl, length,
}

abbrev pub Bytes : Type 0
Bytes = List ℕ

-- What a read that is in range finds; `undefined` counts as 0, as in `message[at] ?? 0`.
abbrev pub or_zero : Option ℕ → ℕ
or_zero none = 0
or_zero (some b) = b

abbrev pub byte : Bytes → ℕ → ℕ
byte m at = or_zero (get_elem? m at)

-- `DataView.getUint16` and `getUint32`, big-endian, of bytes in the message: the callers test the range
-- (`in_message`), outside which both throw.
abbrev pub u16 : Bytes → ℕ → ℕ
u16 m at = byte m at * 256 + byte m (at + 1)

abbrev pub u32 : Bytes → ℕ → ℕ
u32 m at = u16 m at * 65536 + u16 m (at + 2)

abbrev pub slice : Bytes → ℕ → ℕ → Bytes
slice m start end = take (end - start) (drop start m)

abbrev pub lower_unit : ℕ → ℕ
lower_unit c = if leb b'A' c && leb c b'Z' then c + 32 else c

unfoldable pub ascii_lower : Bytes → Bytes
ascii_lower text = map lower_unit text

abbrev pub bytes_eq : Bytes → Bytes → Bool
bytes_eq [] [] = true
bytes_eq (x ∷ xs) (y ∷ ys) = x == y && bytes_eq xs ys
bytes_eq _ _ = false

pub bytes_eq_sound : (xs ys : Bytes) → bytes_eq xs ys ≡ true → xs ≡ ys
bytes_eq_sound [] [] h = refl
bytes_eq_sound [] (y ∷ ys) h = cc
bytes_eq_sound (x ∷ xs) [] h = cc
bytes_eq_sound (x ∷ xs) (y ∷ ys) h = ground (arith, bytes_eq_sound xs ys)

pub bytes_eq_refl : (xs : Bytes) → bytes_eq xs xs ≡ true
bytes_eq_refl [] = refl
bytes_eq_refl (x ∷ xs) = ground (arith, bytes_eq_refl xs)

pub ascii_lower_idem : (s : Bytes) → ascii_lower (ascii_lower s) ≡ ascii_lower s
unfolding ascii_lower
ascii_lower_idem [] = refl
ascii_lower_idem (c ∷ s) = ground (arith, ascii_lower_idem s)

pub length-ascii_lower : (s : Bytes) → length (ascii_lower s) ≡ length s
unfolding ascii_lower
length-ascii_lower [] = refl
length-ascii_lower (c ∷ s) = ground (arith, length-ascii_lower s)
