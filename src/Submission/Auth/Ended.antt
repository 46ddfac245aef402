-- ===== src/Submission/Auth/Ended.antt =====
-- What the end of a lookup keeps.
use native.Mathlib.Nat.{le_refl}
use bunmail.Prelude.{
  ℕ, ◌+◌, ◌≤◌, ◌<◌, ◌≡◌, subst, sym, All, get_elem?, inl, inr, refl, String, true, false, List,
  Option, none, some, arith, str_eq, eq_iff, Bool-cases,
}
use bunmail.Dict.{get}
use bunmail.Shared.Window.{MemoryWindowCounter}
use bunmail.Shared.Facade.{WindowBackend}
use bunmail.Submission.Auth.{Lookup, AuthAttempt, authenticate}
use bunmail.Submission.Auth.Flights.{
  Flight, ends, remove_at, on_key, HasTicket, remove_at-All, All-get, waiting-remove_at,
}
use bunmail.Submission.Auth.Steps.{is_invalid, in_memory, ended, auth_step}
use bunmail.Submission.Auth.Outcomes.{
  authenticate-Leaves, authenticate-other, authenticate-uncounted,
}
use bunmail.Submission.Auth.Kept.{Kept, entry-Kept}

module _ {B : Type 0} (ops : WindowBackend B) (bucket_of : String → String)
    (lookup : String → Lookup) (max window_sec g : ℕ) where
  -- An attempt that is none of the bucket's no longer waits.
  gone-Kept :
      (key : String) (at end i : ℕ) (c : MemoryWindowCounter) (fs : List Flight) (wrong : ℕ)
      (f : Flight)
      → get_elem? fs i ≡ some f
      → on_key key f ≡ false
      → Kept max window_sec key at end (c, fs) wrong
      → Kept max window_sec key at end (c, remove_at fs i) (wrong + 0)
  gone-Kept key at end i c fs wrong f e off (inl (gone, none_wait, none_wrong)) =
      let left = waiting-remove_at key fs i f e in
      inl (gone, ground (arith, left, none_wait, off), omega (arith, none_wrong))
  gone-Kept key at end i c fs wrong f e off (inr (w, here, lives, tickets, counted, small)) =
      let left = waiting-remove_at key fs i f e in
      inr (
        w,
        here,
        lives,
        remove_at-All (HasTicket key w.id) fs i tickets,
        ground (arith, left, counted, off),
        small,
      )

  -- The lookup of an attempt of the bucket ends.
  own-Kept :
      (key : String) (at end i : ℕ) (c : MemoryWindowCounter) (fs : List Flight) (wrong : ℕ)
      (attempt : AuthAttempt) (candidate : String)
      → at < end
      → get_elem? fs i ≡ some (some attempt, candidate)
      → str_eq attempt.bucket key ≡ true
      → Kept max window_sec key at end (c, fs) wrong
      → let (s, outcome) =
          authenticate ops bucket_of
            (in_memory g c)
            (some attempt)
            candidate
            (lookup candidate)
            at in
        Kept max window_sec key at end (s.local, remove_at fs i) (wrong + is_invalid outcome)
  own-Kept key at end i c fs wrong attempt candidate before e on
        (inl (gone, none_wait, none_wrong)) =
      absurd (ground (arith, waiting-remove_at key fs i (some attempt, candidate) e, none_wait, on))
  own-Kept key at end i c fs wrong attempt candidate before e on
        (inr (w, here, lives, tickets, counted, small)) =
      let named : key ≡ attempt.bucket = sym ((eq_iff attempt.bucket key).0 on) in
      let (tagged, ticket) =
        All-get (HasTicket key w.id) fs i (some attempt, candidate) e tickets on in
      let left = waiting-remove_at key fs i (some attempt, candidate) e in
      let some_counted : 0 < w.count = ground (arith, left, counted, on) in
      let (w', there, until, same, fewer, spent) =
        authenticate-Leaves ops bucket_of lookup max window_sec g c w attempt at
          (subst (λ k. get c.entries k ≡ some w) named here) tagged ticket
          (omega (arith, lives, before)) some_counted candidate (lookup candidate) in
      inr (
        w',
        subst
            (λ k.
              get
                (authenticate ops bucket_of (in_memory g c) (some attempt) candidate
                  (lookup candidate) at).0.local.entries
                k
              ≡ some w')
            (sym named) there,
        omega (arith, lives, until),
        subst (λ id. All (HasTicket key id) (remove_at fs i)) (sym same)
            (remove_at-All (HasTicket key w.id) fs i tickets),
        ground (arith, left, counted, spent, on),
        omega (arith, small, fewer),
      )

  pub end-Kept :
      (key : String) (t at end i : ℕ) (c : MemoryWindowCounter) (fs : List Flight) (wrong : ℕ)
      → t ≤ at
      → at < end
      → Kept max window_sec key t end (c, fs) wrong
      → let (s, tried) = auth_step ops bucket_of lookup max window_sec g key (c, fs) (ends i at) in
        Kept max window_sec key at end s (wrong + tried)
  unfolding auth_step
  end-Kept key t at end i c fs wrong from before kept =
      of_flight (get_elem? fs i) refl
        (entry-Kept max window_sec key t at end c c fs wrong from before (inl refl) kept)
    where
      of_flight :
          (o : Option Flight)
          → get_elem? fs i ≡ o
          → Kept max window_sec key at end (c, fs) wrong
          → Kept max window_sec key at end
              (ended ops bucket_of lookup max window_sec g key c fs i at o).0
              (wrong + (ended ops bucket_of lookup max window_sec g key c fs i at o).1)
      of_flight none e k =
          let same : wrong ≡ wrong + 0 = omega arith in
          subst (Kept max window_sec key at end (c, fs)) same k
      of_flight (some (none, candidate)) e k =
          rw
            (authenticate-uncounted ops bucket_of lookup max window_sec g c candidate
              (lookup candidate) at)
            (gone-Kept key at end i c fs wrong (none, candidate) e refl k)
      of_flight (some (some attempt, candidate)) e k =
          elim (Bool-cases (str_eq attempt.bucket key)) [
            | inl on ↦ rw on (own-Kept key at end i c fs wrong attempt candidate before e on k)
            | inr off ↦ rw off (
                gone-Kept key at end i
                  (authenticate ops bucket_of (in_memory g c) (some attempt) candidate
                    (lookup candidate) at).0.local
                  fs wrong (some attempt, candidate) e off
                  (entry-Kept max window_sec key at at end c
                    (authenticate ops bucket_of (in_memory g c) (some attempt) candidate
                      (lookup candidate) at).0.local
                    fs wrong (le_refl at) before
                    (inl (
                      authenticate-other ops bucket_of lookup max window_sec g c attempt key
                        candidate (lookup candidate) at off))
                    k))
          ]
