-- ===== src/Middleware/RateLimit/Budget.antt =====
-- How many sends a key gets through.
use bunmail.Prelude.{
  ℕ, ◌+◌, ◌-◌, ◌*◌, ◌≤◌, ◌<◌, ◌≡◌, ◌⊎◌, refl, String, false, List, [], ◌∷◌, Option, none, some, ap,
  ◌∙◌, if◌then◌else◌, arith, str_eq, eq_iff, eq_refl, Bool-cases, inl, inr,
}
use bunmail.Dict.{get, get-set, get-set_self}
use bunmail.Middleware.RateLimit.{
  RateLimitOptions, RateLimitEntry, RateLimitDecision, allowed, limited, RateLimitMap, is_over,
  entry_for, counted, check_rate_limit,
}

-- A request: whose key, when, and how many sends it is.
pub record Request : Type 0 where
  pub key : String
  pub now : ℕ
  pub weight : ℕ

abbrev passed : RateLimitDecision → ℕ → ℕ
passed allowed weight = weight
passed (limited count retry) weight = 0

-- The sends that the requests get through for `key`.
pub sends : RateLimitMap → RateLimitOptions → String → List Request → ℕ
sends m o key [] = 0
sends m o key (r ∷ rs) =
    let (m', decision) = check_rate_limit m r.key r.now o r.weight in
    let rest = sends m' o key rs in
    if str_eq r.key key then passed decision r.weight + rest else rest

-- The times of the requests run forward from `start`, and all lie before `end`.
abbrev pub InOrder : ℕ → ℕ → List Request → Type 0
InOrder start end [] = Unit
InOrder start end (r ∷ rs) = (start ≤ r.now) × (r.now < end) × InOrder r.now end rs

check_other :
    (m : RateLimitMap) (k key : String) (now : ℕ) (o : RateLimitOptions) (weight : ℕ)
    → str_eq k key ≡ false
    → get (check_rate_limit m k now o weight).0 key ≡ get m key
unfolding check_rate_limit
check_other m k key now o weight other = rw (get-set m k _ key, other) refl

pub check_self :
    (m : RateLimitMap) (key : String) (now : ℕ) (o : RateLimitOptions) (weight : ℕ)
    → get (check_rate_limit m key now o weight).0 key
      ≡ some (counted (entry_for (get m key) now o.window_ms) now o weight).0
unfolding check_rate_limit
check_self m key now o weight = get-set_self m key _

pub check_decision :
    (m : RateLimitMap) (key : String) (now : ℕ) (o : RateLimitOptions) (weight : ℕ)
    → (check_rate_limit m key now o weight).1
      ≡ (counted (entry_for (get m key) now o.window_ms) now o weight).1
unfolding check_rate_limit
check_decision m key now o weight = refl

-- One count: what gets through fits what is left, and what is left after it.
counted_fits :
    (e : RateLimitEntry) (now : ℕ) (o : RateLimitOptions) (weight : ℕ)
    → let (e', decision) = counted e now o weight in
      (passed decision weight + (o.max - e'.count) ≤ o.max - e.count)
      × (e'.window_start ≡ e.window_start)
unfolding counted
counted_fits e now o weight = ground arith

entry_for_live :
    (e : RateLimitEntry) (now window_ms : ℕ)
    → now < e.window_start + window_ms
    → entry_for (some e) now window_ms ≡ e
unfolding entry_for
entry_for_live e now window_ms h = ground arith

-- While the window of `e` lasts, the key gets no more through than what `e` leaves.
sends_in_window :
    (rs : List Request) (m : RateLimitMap) (o : RateLimitOptions) (key : String)
    (e : RateLimitEntry) (start : ℕ)
    → get m key ≡ some e
    → InOrder start (e.window_start + o.window_ms) rs
    → sends m o key rs ≤ o.max - e.count
unfolding sends
sends_in_window [] m o key e start here order = omega arith
sends_in_window (r ∷ rs) m o key e start here (from, before, order) =
    let m' = (check_rate_limit m r.key r.now o r.weight).0 in
    elim (Bool-cases (str_eq r.key key)) [
      | inl same ↦
          let here' : get m r.key ≡ some e = rw ((eq_iff _ _).0 same) here in
          let e' = (counted e r.now o r.weight).0 in
          let used : entry_for (get m r.key) r.now o.window_ms ≡ e =
            rw here' (entry_for_live e r.now o.window_ms before) in
          let (fits, kept) = counted_fits e r.now o r.weight in
          let next : get m' r.key ≡ some e' =
            check_self m r.key r.now o r.weight
            ∙ ap (λ x. some (counted x r.now o r.weight).0) used in
          let decided =
            check_decision m r.key r.now o r.weight
            ∙ ap (λ x. (counted x r.now o r.weight).1) used in
          rw (← (eq_iff _ _).0 same, eq_refl r.key, decided)
            (omega (arith, fits, sends_in_window rs m' o r.key e' r.now next (rw kept order)))
      | inr other ↦ rw other (
          sends_in_window rs m' o key e r.now
            (check_other m r.key key r.now o r.weight other ∙ here) order)
    ]

InOrder-weaken :
    (rs : List Request) (start end far : ℕ)
    → end ≤ far
    → InOrder start end rs
    → InOrder start far rs
InOrder-weaken [] start end far h order = tt
InOrder-weaken (r ∷ rs) start end far h (from, before, order) =
    (from, omega arith, InOrder-weaken rs r.now end far h order)

abbrev left : ℕ → Option RateLimitEntry → ℕ
left max none = 0
left max (some e) = max - e.count

left-le : (max : ℕ) (x : Option RateLimitEntry) → left max x ≤ max
left-le max none = omega arith
left-le max (some e) = omega arith

-- A request is counted in the live window, or opens one.
entry_for-cases :
    (x : Option RateLimitEntry) (now window_ms max : ℕ)
    → (entry_for x now window_ms ≡ record { count = 0; window_start = now })
      ⊎ (max - (entry_for x now window_ms).count ≤ left max x)
unfolding entry_for
entry_for-cases none now window_ms max = inl refl
entry_for-cases (some e) now window_ms max = elim (Bool-cases (is_over e now window_ms)) [
  | inl over ↦ inl (rw over)
  | inr live ↦ inr (rw live (omega arith))
]

sends-left :
    (rs : List Request) (m : RateLimitMap) (o : RateLimitOptions) (key : String) (t start : ℕ)
    → t ≤ start
    → InOrder start (t + o.window_ms) rs
    → sends m o key rs ≤ left o.max (get m key) + o.max
unfolding sends
sends-left [] m o key t start h order = omega arith
sends-left (r ∷ rs) m o key t start h (from, before, order) =
    let m' = (check_rate_limit m r.key r.now o r.weight).0 in
    let e = entry_for (get m r.key) r.now o.window_ms in
    let e' = (counted e r.now o r.weight).0 in
    elim (Bool-cases (str_eq r.key key)) [
      | inl same ↦
          let next = check_self m r.key r.now o r.weight in
          let (fits, kept) = counted_fits e r.now o r.weight in
          rw (← (eq_iff _ _).0 same, eq_refl r.key, check_decision m r.key r.now o r.weight)
            (elim (entry_for-cases (get m r.key) r.now o.window_ms o.max) [
              | inl new ↦
                  let opened : e'.window_start ≡ r.now = kept ∙ ap (λ x. x.window_start) new in
                  let empty : e.count ≡ 0 = ap (λ x. x.count) new in
                  omega (
                    arith,
                    fits,
                    empty,
                    sends_in_window rs m' o r.key e' r.now next
                        (rw opened (InOrder-weaken rs r.now _ _ (omega arith) order)),
                  )
              | inr old ↦ omega (
                arith,
                fits,
                old,
                sends-left rs m' o r.key t r.now (omega arith) order,
                ap (left o.max) next,
              )
            ])
      | inr other ↦
          rw (other, ← check_other m r.key key r.now o r.weight other)
            (sends-left rs m' o key t r.now (omega arith) order)
    ]

-- The budget of a fixed window: within any stretch of one window's length, wherever it starts and
-- however the requests of other keys fall between, a key gets at most twice the maximum through.
pub sends-le-twice_max :
    (m : RateLimitMap) (o : RateLimitOptions) (key : String) (t : ℕ) (rs : List Request)
    → InOrder t (t + o.window_ms) rs
    → sends m o key rs ≤ 2 * o.max
sends-le-twice_max m o key t rs order =
    omega (arith, sends-left rs m o key t t (omega arith) order, left-le o.max (get m key))
