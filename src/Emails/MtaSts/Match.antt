-- ===== src/Emails/MtaSts/Match.antt =====
-- src/modules/emails/services/mta-sts-policy.ts: whether a host name fits a policy's patterns. A text
-- is its UTF-16 code units; `trim` and `toLowerCase` are parameters.
use bunmail.Prelude.{
  false, ℕ, zero, suc, ◌+◌, ◌-◌, ◌≡◌, refl, sym, ap, ap₂, ◌∙◌, Bool, true, not, ◌&&◌, List, [], ◌∷◌,
  ◌++◌, ◌<◌, any, filter, leb, ltb, ◌==◌, if◌then◌else◌, length, length-append, take, drop,
  drop-append, take-append, arith, ◌↔◌,
}
use bunmail.Dns.Bytes.{Bytes, bytes_eq, bytes_eq_sound, bytes_eq_refl}
use bunmail.Dns.Name.{strip_dot}

-- `label.length > 0 && !label.includes(".")`
abbrev pub one_label : Bytes → Bool
one_label label = ltb 0 (length label) && not (any (λ c. c == b'.') label)

-- The host ends with `suffix`, and what stands before it is one label.
abbrev pub under : Bytes → Bytes → Bool
under suffix host =
    leb (length suffix) (length host)
    && (bytes_eq (drop (length host - length suffix) host) suffix
        && one_label (take (length host - length suffix) host))

abbrev pub fits : Bytes → Bytes → Bool
fits host [] = bytes_eq host []
fits host (c ∷ []) = bytes_eq host (c ∷ [])
fits host (c ∷ d ∷ rest) =
    if c == b'*' && d == b'.' then under (d ∷ rest) host else bytes_eq host (c ∷ d ∷ rest)

unfoldable pub mx_matches_pattern : (trim lower : Bytes → Bytes) → Bytes → Bytes → Bool
mx_matches_pattern trim lower mx_host pattern =
    fits (strip_dot (lower (trim mx_host))) (strip_dot (lower pattern))

unfoldable pub matching_mx_hosts :
    (trim lower : Bytes → Bytes) → List Bytes → List Bytes → List Bytes
unfolding mx_matches_pattern
matching_mx_hosts trim lower hosts mx =
    filter (λ host. any (λ pattern. mx_matches_pattern trim lower host pattern) mx) hosts

take-drop_append : (n : ℕ) (xs : Bytes) → take n xs ++ drop n xs ≡ xs
take-drop_append zero xs = refl
take-drop_append (suc n) [] = refl
take-drop_append (suc n) (x ∷ xs) = ap (◌∷◌ x) (take-drop_append n xs)

-- A label that is not empty and holds no dot.
abbrev pub OneLabel : Bytes → Type 0
OneLabel label = (0 < length label) × (any (λ c. c == b'.') label ≡ false)

one_label-OneLabel : (label : Bytes) → one_label label ≡ true → OneLabel label
one_label-OneLabel label h = (ground arith, ground arith)

OneLabel-one_label : (label : Bytes) → OneLabel label → one_label label ≡ true
OneLabel-one_label label (some_unit, no_dot) =
    let long : ltb 0 (length label) ≡ true = ground arith in rw (long, no_dot) refl

under_iff :
    (suffix host : Bytes)
    → (under suffix host ≡ true) ↔ ((label : Bytes) × (host ≡ label ++ suffix) × OneLabel label)
under_iff suffix host = (split, joined)
  where
    split : under suffix host ≡ true → (label : Bytes) × (host ≡ label ++ suffix) × OneLabel label
    split h =
        let n = length host - length suffix in
        let same : drop n host ≡ suffix = bytes_eq_sound (drop n host) suffix (ground arith) in
        (
          take n host,
          sym (take-drop_append n host) ∙ ap (◌++◌ (take n host)) same,
          one_label-OneLabel (take n host) (ground arith),
        )

    joined : (label : Bytes) × (host ≡ label ++ suffix) × OneLabel label → under suffix host ≡ true
    joined (label, e, h) =
        let size : length host ≡ length label + length suffix =
          ap length e ∙ length-append label suffix in
        let n : length host - length suffix ≡ length label = omega arith in
        let rest : drop (length host - length suffix) host ≡ suffix =
          ap₂ drop n e
          ∙ ap (λ k. drop k (label ++ suffix)) (omega arith)
          ∙ drop-append label suffix 0 in
        let front : take (length host - length suffix) host ≡ label =
          ap₂ take n e ∙ take-append label suffix in
        let room : leb (length suffix) (length host) ≡ true = ground arith in
        rw (room, rest, front, bytes_eq_refl suffix) (OneLabel-one_label label h)

-- A wildcard pattern covers exactly the hosts that put one label before its zone: after the source's
-- trimming and lowering, a host matches `*.zone` if and only if it is a label, not empty and without
-- a dot, followed by `.zone`; not the zone itself, and no deeper name.
pub mx_matches_pattern_iff :
    (trim lower : Bytes → Bytes) (mx_host pattern zone : Bytes)
    → strip_dot (lower pattern) ≡ b'*' ∷ b'.' ∷ zone
    → (mx_matches_pattern trim lower mx_host pattern ≡ true) ↔ (
        (label : Bytes) × (strip_dot (lower (trim mx_host)) ≡ label ++ (b'.' ∷ zone))
        × OneLabel label)
unfolding mx_matches_pattern
mx_matches_pattern_iff trim lower mx_host pattern zone wild =
    rw wild (under_iff (b'.' ∷ zone) (strip_dot (lower (trim mx_host))))
