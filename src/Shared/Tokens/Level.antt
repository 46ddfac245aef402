-- ===== src/Shared/Tokens/Level.antt =====
-- The level of a bucket: what a take, a sweep and time make of it.
use native.Mathlib.Nat.{add-mul, mul-le-mul_right, zero-mul}
use bunmail.Prelude.{
  ℕ, ◌+◌, ◌-◌, ◌*◌, ◌≤◌, ◌≡◌, refl, String, false, Option, none, some, leb, length, arith, str_eq,
  Bool-cases, inl, inr,
}
use bunmail.Dict.{
  get, get-set, get-keep, option_filter, Distinct, AllValues, AllValues-get, HasSome,
}
use bunmail.Shared.Tokens.{
  TokenRate, MemoryBucket, MemoryTokenBuckets, token, full, refilled, refill, is_used, sweep,
  grant_of, take_now, max_idle_buckets,
}

-- Every bucket was last used at the rate `r`.
abbrev pub HasRate : TokenRate → MemoryBucket → Type 0
HasRate r b = b.rate ≡ r

refilled_none : (at : ℕ) (r : TokenRate) → refilled none at r ≡ full r
unfolding refilled
refilled_none at r = refl

pub refilled-le-full : (o : Option MemoryBucket) (at : ℕ) (r : TokenRate) → refilled o at r ≤ full r
unfolding refilled
refilled-le-full none at r = omega arith
refilled-le-full (some b) at r = omega arith

pub refill-le-full :
    (m : MemoryTokenBuckets) (key : String) (at : ℕ) (r : TokenRate) → refill m key at r ≤ full r
unfolding refill
refill-le-full m key at r = refilled-le-full (get m key) at r

elapsed_mul : (x at later p : ℕ) → at ≤ later → (later - x) * p ≤ (at - x) * p + (later - at) * p
elapsed_mul x at later p h =
    rw (← add-mul (at - x) (later - at) p) (mul-le-mul_right p (omega arith))

-- A bucket fills up no faster than the rate.
pub refilled-later :
    (o : Option MemoryBucket) (at later : ℕ) (r : TokenRate)
    → at ≤ later
    → refilled o later r ≤ refilled o at r + (later - at) * r.per_minute
unfolding refilled
refilled-later none at later r h = omega arith
refilled-later (some b) at later r h = omega (arith, elapsed_mul b.at at later r.per_minute h)

pub refilled_mono :
    (o : Option MemoryBucket) (at later : ℕ) (r : TokenRate)
    → at ≤ later
    → refilled o at r ≤ refilled o later r
unfolding refilled
refilled_mono none at later r h = omega arith
refilled_mono (some b) at later r h =
    let p : (at - b.at) * r.per_minute ≤ (later - b.at) * r.per_minute =
      mul-le-mul_right r.per_minute (omega arith) in
    omega (arith, p)

dropped-refilled :
    (b : MemoryBucket) (at later : ℕ)
    → at ≤ later
    → refilled (option_filter (is_used at) (some b)) later b.rate ≡ refilled (some b) later b.rate
unfolding is_used
dropped-refilled b at later h = ground (
  arith,
  refilled_none later b.rate,
  refilled_mono (some b) at later b.rate h,
  refilled-le-full (some b) later b.rate,
)

kept-refilled :
    (o : Option MemoryBucket) (at later : ℕ) (r : TokenRate)
    → at ≤ later
    → HasSome (HasRate r) o
    → refilled (option_filter (is_used at) o) later r ≡ refilled o later r
kept-refilled none at later r h same = refl
kept-refilled (some b) at later r h same = rw (← same) (dropped-refilled b at later h)

-- Where all buckets have one rate, a sweep is unseen: what it drops is full, as a new bucket is.
pub refill-sweep :
    (m : MemoryTokenBuckets) (key : String) (at later : ℕ) (r : TokenRate)
    → Distinct m
    → AllValues (HasRate r) m
    → at ≤ later
    → refill (sweep m at) key later r ≡ refill m key later r
unfolding refill sweep
refill-sweep m key at later r d same h = elim (Bool-cases (leb (length m) max_idle_buckets)) [
  | inl few ↦ rw few refl
  | inr many ↦
      rw (many, get-keep (is_used at) m key d)
        (kept-refilled (get m key) at later r h (AllValues-get (HasRate r) m key same))
]

-- A grant takes whole tokens, no more than are there or asked for, and the rest stays.
pub grant_of-split :
    (before count : ℕ) (r : TokenRate)
    → ((grant_of before count r).granted ≤ count)
      × ((grant_of before count r).granted * token ≤ before)
unfolding grant_of
grant_of-split before count r = omega arith

elapsed_zero : (at p : ℕ) → (at - at) * p ≡ 0
elapsed_zero at p = let e : at - at ≡ 0 = omega arith in rw e (zero-mul p)

pub level-take :
    (before count at : ℕ) (r : TokenRate)
    → before ≤ full r
    → let g = grant_of before count r in
      let b : MemoryBucket = record { tokens = before - g.granted * token; at = at; rate = r } in
      refilled (some b) at r + g.granted * token ≡ before
unfolding refilled
level-take before count at r h =
    let (_, enough) = grant_of-split before count r in
    omega (arith, enough, elapsed_zero at r.per_minute)

-- `take_now` takes its grant from the key's level, and leaves every other key's level as it was.
pub refill-take_now :
    (m : MemoryTokenBuckets) (key j : String) (count at later : ℕ) (r : TokenRate)
    → Distinct m
    → AllValues (HasRate r) m
    → at ≤ later
    → str_eq key j ≡ false
    → refill (take_now m key count r at).0 j later r ≡ refill m j later r
unfolding refill take_now
refill-take_now m key j count at later r d same h other =
    rw (get-set (sweep m at) key _ j, other) (refill-sweep m j at later r d same h)
