-- ===== src/Shared/Fallback/Reports.antt =====
-- Every fallback is in some log line, or will be in the next.
use bunmail.Prelude.{
  ℕ, ◌+◌, ◌≡◌, String, List, [], ◌∷◌, Option, none, some, if◌then◌else◌, arith, str_eq, eq_iff,
  Option-cases, inl, inr,
}
use bunmail.Dict.{Dict, get, get-set}
use bunmail.Shared.Fallback.{FallbackLogged, report_fallback, suppressed_of}

-- Fallbacks that no log line has told of yet.
abbrev pub untold : Dict FallbackLogged → String → ℕ
untold m namespace = suppressed_of (get m namespace)

-- What a report tells of: itself, and those that were held back.
abbrev pub told : Option ℕ → ℕ
told none = 0
told (some suppressed) = suppressed + 1

report_fallback-untold :
    (m : Dict FallbackLogged) (name key : String) (at : ℕ)
    → let (m', line) = report_fallback m name at in
      (if str_eq name key then told line else 0) + untold m' key
      ≡ untold m key + (if str_eq name key then 1 else 0)
unfolding report_fallback
report_fallback-untold m name key at = elim (Option-cases (get m name)) [
  | inl new ↦
      ground (arith, get-set m name (record { at = at; suppressed = 0 }) key, eq_iff name key)
  | inr (last, here) ↦ ground (
    arith,
    get-set m name (record { at = at; suppressed = 0 }) key,
    get-set m name (record last { suppressed = last.suppressed + 1 }) key,
    eq_iff name key,
  )
]

-- Fallbacks of namespaces, at their times: the map after them, what the lines of `key` tell of, and
-- how many fallbacks of `key` there are.
abbrev pub after : Dict FallbackLogged → List (String × ℕ) → Dict FallbackLogged
after m [] = m
after m ((name, at) ∷ more) = after (report_fallback m name at).0 more

pub told_of : Dict FallbackLogged → String → List (String × ℕ) → ℕ
told_of m key [] = 0
told_of m key ((name, at) ∷ more) =
    let (m', line) = report_fallback m name at in
    (if str_eq name key then told line else 0) + told_of m' key more

pub fallbacks_of : String → List (String × ℕ) → ℕ
fallbacks_of key [] = 0
fallbacks_of key ((name, at) ∷ more) = (if str_eq name key then 1 else 0) + fallbacks_of key more

-- No fallback goes untold or is told of twice: for every namespace, what its log lines tell of and
-- what is held back for the next line are together what was held back before and what happened
-- since.
pub report_fallback-accounts :
    (more : List (String × ℕ)) (m : Dict FallbackLogged) (key : String)
    → told_of m key more + untold (after m more) key ≡ untold m key + fallbacks_of key more
unfolding told_of fallbacks_of
report_fallback-accounts [] m key = omega arith
report_fallback-accounts ((name, at) ∷ more) m key = omega (
  arith,
  report_fallback-untold m name key at,
  report_fallback-accounts more (report_fallback m name at).0 key,
)
