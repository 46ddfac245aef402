-- ===== src/Domains/Spf/Address.antt =====
-- src/modules/domains/services/spf-address.ts: `clientAddress` and `inNetwork` over parsed bytes.
use Prim.Native.Nat.{bit_and}
use bunmail.Prelude.{
  ℕ, zero, suc, ◌-◌, ◌*◌, ◌/◌, ◌%◌, ◌^◌, Bool, true, false, not, ◌&&◌, List, [], ◌∷◌, ◌==◌,
  if◌then◌else◌, all,
}
use bunmail.Domains.Spf.Types.{Family, v4, v6, IpAddress}

abbrev pub same_family : Family → Family → Bool
same_family v4 v4 = true
same_family v6 v6 = true
same_family _ _ = false

-- `bytes[i] ?? 0`
unfoldable pub byte_at : List ℕ → ℕ → ℕ
byte_at [] i = 0
byte_at (b ∷ bs) zero = b
byte_at (b ∷ bs) (suc i) = byte_at bs i

abbrev take : ℕ → List ℕ → List ℕ
take zero bs = []
take (suc n) [] = []
take (suc n) (b ∷ bs) = b ∷ take n bs

abbrev drop : ℕ → List ℕ → List ℕ
drop zero bs = bs
drop (suc n) [] = []
drop (suc n) (b ∷ bs) = drop n bs

-- `clientAddress` of a text that `parseIp` reads as `address`: IPv4 where it is mapped into IPv6.
pub unmapped : IpAddress → IpAddress
unfolding byte_at
unmapped address =
    let mapped =
      all (λ b. b == 0) (take 10 address.bytes)
      && byte_at address.bytes 10 == 0xff
      && byte_at address.bytes 11 == 0xff in
    if same_family address.family v6 && mapped
    then record { family = v4; bytes = drop 12 address.bytes }
    else address

-- The loop over the whole bytes.
unfoldable pub same_bytes : ℕ → List ℕ → List ℕ → Bool
unfolding byte_at
same_bytes zero xs ys = true
same_bytes (suc n) xs ys = same_bytes n xs ys && byte_at xs n == byte_at ys n

-- `(0xff << (8 - bits)) & 0xff`
abbrev pub mask : ℕ → ℕ
mask bits = (0xff * 2 ^ (8 - bits)) % 256

unfoldable pub in_network : IpAddress → IpAddress → ℕ → Bool
unfolding same_bytes byte_at
in_network address network prefix =
    let whole = prefix / 8 in
    let bits = prefix % 8 in
    if not (same_family address.family network.family)
    then false
    else if not (same_bytes whole address.bytes network.bytes)
    then false
    else if bits == 0
    then true
    else bit_and (byte_at address.bytes whole) (mask bits)
      == bit_and (byte_at network.bytes whole) (mask bits)
