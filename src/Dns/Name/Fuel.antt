-- ===== src/Dns/Name/Fuel.antt =====
-- Reading a name ends, whatever the bytes are, inside the message and the limits.
use bunmail.Prelude.{
  ℕ, zero, suc, ◌+◌, ◌-◌, ◌*◌, ◌%◌, ◌≤◌, ◌<◌, ◌≡◌, refl, List, [], ◌∷◌, ◌++◌, Option, none, some,
  length, get_elem?, get_elem?-lt, drop, length-take-le, arith,
}
use bunmail.Dns.Bytes.{Bytes, slice, ascii_lower, length-ascii_lower}
use bunmail.Dns.Name.{
  Read, ok, malformed, range_error, out_of_fuel, Cursor, ReadName, Turn, stop, go, or_else, jump,
  label, pointer, turn_on, follow, turn, read_from, cursor_at, read_fuel, read_name,
}

-- The bytes that labels take on the wire, without the root.
abbrev pub wire_of : List Bytes → ℕ
wire_of [] = 0
wire_of (l ∷ ls) = suc (length l) + wire_of ls

pub wire_of-append : (xs ys : List Bytes) → wire_of (xs ++ ys) ≡ wire_of xs + wire_of ys
wire_of-append [] ys = omega arith
wire_of-append (x ∷ xs) ys = omega (arith, wire_of-append xs ys)

-- What the loop keeps: the limits, and where the bytes after the name start once it has jumped.
pub record Within (m : Bytes) (s : Cursor) : Type 0 where
  pub jumps_le : s.jumps ≤ 32
  pub wire_le : s.wire_bytes ≤ 255
  pub labels_le : wire_of s.labels ≤ s.wire_bytes
  pub next_le : or_else s.next 0 ≤ length m

-- How many turns are left at most.
abbrev pub turns_left : Cursor → ℕ
turns_left s = (32 - s.jumps) + (255 - s.wire_bytes)

-- A name that was read takes at most 255 bytes, and the bytes after it start in the message.
abbrev pub IsRead : Bytes → Read ReadName → Type 0
IsRead m (ok r) = (suc (wire_of r.labels) ≤ 255) × (r.next ≤ length m)
IsRead m malformed = Unit {0}
IsRead m range_error = ⊥
IsRead m out_of_fuel = ⊥

-- One turn ends well, or leaves fewer turns and the limits kept.
abbrev Turns : Bytes → Cursor → Turn → Type 0
Turns m s (stop r) = IsRead m r
Turns m s (go s') = Within m s' × (turns_left s' < turns_left s)

label-Turns :
    (m : Bytes) (s : Cursor) (size : ℕ) → Within m s → s.at < length m → Turns m s (label m s size)
unfolding label
label-Turns m s size w h = ground (
  arith,
  wire_of-append s.labels (ascii_lower (slice m (s.at + 1) (s.at + 1 + size)) ∷ []),
  length-ascii_lower (slice m (s.at + 1) (s.at + 1 + size)),
  length-take-le (s.at + 1 + size - (s.at + 1)) (drop (s.at + 1) m),
)

jump-Turns :
    (m : Bytes) (s : Cursor) (target : ℕ)
    → Within m s
    → s.at + 1 < length m
    → Turns m s (jump s target)
unfolding jump
jump-Turns m s target w h = ground arith

pointer-Turns :
    (m : Bytes) (s : Cursor) (size : ℕ) (low : Option ℕ)
    → get_elem? m (s.at + 1) ≡ low
    → Within m s
    → Turns m s (pointer s size low)
pointer-Turns m s size none h w = tt
pointer-Turns m s size (some low) h w =
    jump-Turns m s (size % 64 * 256 + low) w (get_elem?-lt m (s.at + 1) low h)

turn_on-Turns :
    (m : Bytes) (s : Cursor) (found : Option ℕ)
    → get_elem? m s.at ≡ found
    → Within m s
    → Turns m s (turn_on m s found)
turn_on-Turns m s none h w = tt
turn_on-Turns m s (some size) h w = ground (
  arith,
  get_elem?-lt m s.at size h,
  label-Turns m s size w (get_elem?-lt m s.at size h),
  pointer-Turns m s size (get_elem? m (s.at + 1)) refl w,
)

follow-IsRead :
    (m : Bytes) (s : Cursor) (loop : Cursor → Read ReadName) (t : Turn)
    → Turns m s t
    → ((s' : Cursor) → Within m s' → turns_left s' < turns_left s → IsRead m (loop s'))
    → IsRead m (follow loop t)
follow-IsRead m s loop (stop r) done ends = done
follow-IsRead m s loop (go s') (within, fewer) ends = ends s' within fewer

read_from-IsRead :
    (fuel : ℕ) (m : Bytes) (s : Cursor)
    → Within m s
    → turns_left s < fuel
    → IsRead m (read_from fuel m s)
unfolding read_from turn
read_from-IsRead zero m s w h = absurd (omega arith)
read_from-IsRead (suc fuel) m s w h =
    follow-IsRead m s (read_from fuel m) (turn_on m s (get_elem? m s.at))
      (turn_on-Turns m s (get_elem? m s.at) refl w)
      (λ s' within fewer. read_from-IsRead fuel m s' within (omega arith))

-- Reading a name in any message ends, and never for want of fuel or with a read past the message:
-- it is refused, or the labels
-- take at most 255 bytes on the wire with the root, and the bytes after the name start inside the
-- message or at its end.
pub read_name-IsRead : (m : Bytes) (start : ℕ) → IsRead m (read_name m start)
unfolding read_name
read_name-IsRead m start =
    read_from-IsRead read_fuel m (cursor_at start) (omega arith) (omega arith)
