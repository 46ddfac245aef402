-- ===== src/Dns/Query.antt =====
-- src/utils/dns-wire.ts: the wire form of a TXT query.
use bunmail.Prelude.{ℕ, ◌/◌, ◌%◌, Bool, List, [], ◌∷◌, ◌++◌, map, length, if◌then◌else◌}
use bunmail.Dns.Bytes.{Bytes}

abbrev pub type_cname : ℕ
type_cname = 5

abbrev pub type_txt : ℕ
type_txt = 16

abbrev pub type_opt : ℕ
type_opt = 41

abbrev pub class_in : ℕ
class_in = 1

abbrev pub edns_udp_payload : ℕ
edns_udp_payload = 1232

pub record TxtQuestion : Type 0 where
  pub id : ℕ
  pub labels : List Bytes

-- A write into a `Uint8Array` keeps the low byte, `DataView.setUint16` two of them.
abbrev pub u8 : ℕ → ℕ
u8 n = n % 256

abbrev pub put_u16 : ℕ → Bytes
put_u16 n = n / 256 % 256 ∷ n % 256 ∷ []

abbrev pub put_labels : List Bytes → Bytes
put_labels [] = 0 ∷ []
put_labels (l ∷ ls) = u8 (length l) ∷ (map u8 l ++ put_labels ls)

-- Id, flags with only RD set, and the counts of the four sections.
abbrev pub put_header : ℕ → Bool → Bytes
put_header id edns =
    put_u16 id
    ++ (put_u16 0x0100
        ++ (put_u16 1 ++ (put_u16 0 ++ (put_u16 0 ++ put_u16 (if edns then 1 else 0)))))

-- The root's name, the type, the payload size, four bytes of TTL and no data.
abbrev pub put_opt : Bytes
put_opt = 0 ∷ (put_u16 type_opt ++ (put_u16 edns_udp_payload ++ (0 ∷ 0 ∷ 0 ∷ 0 ∷ 0 ∷ 0 ∷ [])))

unfoldable pub encode_query : TxtQuestion → Bool → Bytes
encode_query question edns =
    put_header question.id edns
    ++ (put_labels question.labels
        ++ (put_u16 type_txt ++ (put_u16 class_in ++ (if edns then put_opt else []))))
