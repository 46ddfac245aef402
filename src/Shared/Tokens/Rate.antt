-- ===== src/Shared/Tokens/Rate.antt =====
-- The rate that the buckets keep, over any sequence of takes.
use native.Mathlib.Nat.{le_refl, add-mul}
use bunmail.Prelude.{
  ℕ, ◌+◌, ◌-◌, ◌*◌, ◌≤◌, ◌≡◌, refl, String, List, [], ◌∷◌, leb, if◌then◌else◌, length, arith,
  str_eq, eq_iff, eq_refl, Bool-cases, inl, inr, sym, ◌∙◌,
}
use bunmail.Dict.{
  get, get-set_self, Distinct, set-Distinct, keep-Distinct, AllValues, AllValues-set,
  AllValues-keep,
}
use bunmail.Shared.Tokens.{
  TokenRate, MemoryTokenBuckets, token, full, refill, is_used, sweep, take_now, max_idle_buckets,
}
use bunmail.Shared.Tokens.Level.{
  HasRate, refilled-later, refilled-le-full, refill-le-full, refill-sweep, refill-take_now,
  level-take,
}

-- A take of `count` tokens of a bucket, at a time.
pub record Take : Type 0 where
  pub bucket : String
  pub count : ℕ
  pub at : ℕ

-- The tokens that a sequence of takes is granted from `key`.
pub granted_from : MemoryTokenBuckets → TokenRate → String → List Take → ℕ
granted_from m r key [] = 0
granted_from m r key (t ∷ ts) =
    let (m', grant) = take_now m t.bucket t.count r t.at in
    let rest = granted_from m' r key ts in
    if str_eq t.bucket key then grant.granted + rest else rest

-- The takes stand in the order of their times, all from `start` to `end`.
abbrev pub InOrder : ℕ → ℕ → List Take → Type 0
InOrder start end [] = start ≤ end
InOrder start end (t ∷ ts) = (start ≤ t.at) × InOrder t.at end ts

InOrder-le : (start end : ℕ) (ts : List Take) → InOrder start end ts → start ≤ end
InOrder-le start end [] h = h
InOrder-le start end (t ∷ ts) (le, h) = omega (arith, InOrder-le t.at end ts h)

-- All buckets of the map were last used at the rate `r`, and no key stands twice.
pub record IsPaced (r : TokenRate) (m : MemoryTokenBuckets) : Type 0 where
  pub distinct : Distinct m
  pub paced : AllValues (HasRate r) m

sweep-IsPaced :
    (r : TokenRate) (m : MemoryTokenBuckets) (at : ℕ) → IsPaced r m → IsPaced r (sweep m at)
unfolding sweep
sweep-IsPaced r m at p = elim (Bool-cases (leb (length m) max_idle_buckets)) [
  | inl few ↦ rw few p
  | inr many ↦ rw many (record {
    distinct = keep-Distinct (is_used at) m p.distinct;
    paced = AllValues-keep (HasRate r) (is_used at) m p.paced;
  })
]

take_now-IsPaced :
    (r : TokenRate) (m : MemoryTokenBuckets) (key : String) (count at : ℕ)
    → IsPaced r m
    → IsPaced r (take_now m key count r at).0
unfolding take_now
take_now-IsPaced r m key count at p =
    let q = sweep-IsPaced r m at p in
    record {
      distinct = set-Distinct _ key _ q.distinct;
      paced = AllValues-set (HasRate r) _ key _ q.paced refl;
    }

-- What a take leaves of its own bucket, with what it granted, is what was there.
refill-take_now_self :
    (r : TokenRate) (m : MemoryTokenBuckets) (key : String) (count at : ℕ)
    → IsPaced r m
    → let (m', grant) = take_now m key count r at in
      refill m' key at r + grant.granted * token ≡ refill m key at r
unfolding take_now refill
refill-take_now_self r m key count at p = rw (get-set_self (sweep m at) key _) (
    level-take (refill (sweep m at) key at r) count at r (refilled-le-full _ at r)
    ∙ refill-sweep m key at at r p.distinct p.paced (le_refl at))

span_mul :
    (start at end p : ℕ)
    → start ≤ at
    → at ≤ end
    → (at - start) * p + (end - at) * p ≡ (end - start) * p
span_mul start at end p h k =
    let e : end - start ≡ (at - start) + (end - at) = omega arith in
    rw e (sym (add-mul (at - start) (end - at) p))

granted_from-le-level :
    (ts : List Take) (m : MemoryTokenBuckets) (r : TokenRate) (key : String) (start end : ℕ)
    → IsPaced r m
    → InOrder start end ts
    → granted_from m r key ts * token ≤ refill m key start r + (end - start) * r.per_minute
unfolding granted_from refill
granted_from-le-level [] m r key start end p h = omega arith
granted_from-le-level (t ∷ ts) m r key start end p (le, h) =
    let m' = (take_now m t.bucket t.count r t.at).0 in
    let p' = take_now-IsPaced r m t.bucket t.count t.at p in
    elim (Bool-cases (str_eq t.bucket key)) [
      | inl same ↦
          rw (← (eq_iff _ _).0 same, eq_refl t.bucket)
            (omega (
              arith,
              granted_from-le-level ts m' r t.bucket t.at end p' h,
              refill-take_now_self r m t.bucket t.count t.at p,
              refilled-later (get m t.bucket) start t.at r le,
              span_mul start t.at end r.per_minute le (InOrder-le t.at end ts h),
            ))
      | inr other ↦ rw other (
          omega (
            arith,
            granted_from-le-level ts m' r key t.at end p' h,
            refill-take_now m t.bucket key t.count t.at t.at r p.distinct p.paced (le_refl t.at)
                other,
            refilled-later (get m key) start t.at r le,
            span_mul start t.at end r.per_minute le (InOrder-le t.at end ts h),
          ))
    ]

-- The rate holds over every stretch of time: the messages that one bucket is granted between
-- `start` and `end` are at most its capacity and what refills in that time, whatever is taken from
-- other buckets and whatever is swept, from a map whose buckets were all last used at the rate.
pub granted_from-le-rate :
    (m : MemoryTokenBuckets) (r : TokenRate) (key : String) (ts : List Take) (start end : ℕ)
    → IsPaced r m
    → InOrder start end ts
    → granted_from m r key ts * token ≤ full r + (end - start) * r.per_minute
granted_from-le-rate m r key ts start end p h =
    omega (arith, granted_from-le-level ts m r key start end p h, refill-le-full m key start r)
