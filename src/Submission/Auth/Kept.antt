-- ===== src/Submission/Auth/Kept.antt =====
-- What holds between the steps, and what the beginning of an attempt keeps.
use bunmail.Prelude.{
  ℕ, suc, ◌+◌, ◌*◌, ◌≤◌, ◌<◌, ◌≡◌, ◌⊎◌, subst, sym, ap, ◌∙◌, eq_refl, All, inl, inr, refl, String,
  true, false, List, [], ◌∷◌, none, some, arith, str_eq, eq_iff, Bool-cases,
}
use bunmail.Dict.{Dict, get}
use bunmail.Shared.Window
use bunmail.Shared.Window.{
  MemoryWindow, MemoryWindowCounter, WindowOptions, is_limited, windows_of, count_of,
}
use bunmail.Shared.Window.View.{alive, current}
use bunmail.Shared.Window.Single.{
  one_of, counted_in, get-take_one, current-take_one, get-take_other,
}
use bunmail.Shared.Facade
use bunmail.Shared.Facade.{SharedCounter, WindowBackend, StoreTag, local_tag, take_local}
use bunmail.Submission.Auth.{Lookup, AuthAttempt, take_auth_attempt, begin_auth}
use bunmail.Submission.Auth.Flights.{
  State, Flight, begins, waiting, HasTicket, HasTicket-none, alive-later, alive-some,
}
use bunmail.Submission.Auth.Steps.{auth_step}

module _ (max window_sec : ℕ) where
  -- What holds between steps from `t` on: before the bucket's window begins, and in it.
  abbrev pub Idle : String → ℕ → State → ℕ → Type 0
  Idle key t (c, fs) wrong = (current c.entries key t ≡ none) × (waiting key fs ≡ 0) × (wrong ≡ 0)

  abbrev pub Counting : String → ℕ → State → ℕ → Type 0
  Counting key end (c, fs) wrong =
      (e : MemoryWindow) × (get c.entries key ≡ some e)
      × (end ≤ e.expires_at)
      × All (HasTicket key e.id) fs
      × (wrong + waiting key fs ≤ e.count)
      × (e.count ≤ max)

  abbrev pub Kept : String → ℕ → ℕ → State → ℕ → Type 0
  Kept key t end s wrong = Idle key t s wrong ⊎ Counting key end s wrong

  -- The bucket's window is left alone, or dropped when it is over.
  pub entry-Kept :
      (key : String) (t at end : ℕ) (c c' : MemoryWindowCounter) (fs : List Flight) (wrong : ℕ)
      → t ≤ at
      → at < end
      → (get c'.entries key ≡ get c.entries key) ⊎ (get c'.entries key ≡ current c.entries key at)
      → Kept key t end (c, fs) wrong
      → Kept key at end (c', fs) wrong
  entry-Kept key t at end c c' fs wrong from before (inl same) (inl (gone, none_wait, none_wrong)) =
      inl
        (ap (alive at) same ∙ alive-later (get c.entries key) t at from gone, none_wait, none_wrong)
  entry-Kept key t at end c c' fs wrong from before (inr same) (inl (gone, none_wait, none_wrong)) =
      inl (
        ap (alive at) (same ∙ alive-later (get c.entries key) t at from gone),
        none_wait,
        none_wrong,
      )
  entry-Kept key t at end c c' fs wrong from before (inl same)
        (inr (e, here, lives, tickets, counted, small)) =
      inr (e, same ∙ here, lives, tickets, counted, small)
  entry-Kept key t at end c c' fs wrong from before (inr same)
        (inr (e, here, lives, tickets, counted, small)) =
      inr (
        e,
        same ∙ ap (alive at) here ∙ alive-some at e (omega (arith, lives)),
        lives,
        tickets,
        counted,
        small,
      )

  -- An attempt of another bucket waits.
  other-Kept :
      (key : String) (at end : ℕ) (c : MemoryWindowCounter) (fs : List Flight) (wrong : ℕ)
      (attempt : AuthAttempt) (candidate : String)
      → str_eq attempt.bucket key ≡ false
      → Kept key at end (c, fs) wrong
      → Kept key at end (c, (some attempt, candidate) ∷ fs) wrong
  unfolding waiting
  other-Kept key at end c fs wrong attempt candidate other (inl (gone, none_wait, none_wrong)) =
      inl (gone, rw other none_wait, none_wrong)
  other-Kept key at end c fs wrong attempt candidate other
        (inr (e, here, lives, tickets, counted, below)) =
      inr (
        e,
        here,
        lives,
        (λ same. let bad : false ≡ true = sym other ∙ same in cc, tickets),
        rw other counted,
        below,
      )

  -- An attempt of the bucket is counted.
  counted-Kept :
      (key : String) (t at end : ℕ) (c c' : MemoryWindowCounter) (fs : List Flight) (wrong : ℕ)
      (windows : Dict ℕ) (candidate : String)
      → t ≤ at
      → at < end
      → end ≤ at + window_sec * 1000
      → get c'.entries key ≡ some (counted_in c key (window_sec * 1000) at)
      → get windows key ≡ some (counted_in c key (window_sec * 1000) at).id
      → count_of (current c.entries key at) < max
      → Kept key t end (c, fs) wrong
      → Kept key at end
          (c', (some (record { bucket = key; tag = local_tag; windows = windows }), candidate) ∷ fs)
          wrong
  unfolding waiting
  counted-Kept key t at end c c' fs wrong windows candidate from before span there ticket below
        (inl (gone, none_wait, none_wrong)) =
      let fresh = alive-later (get c.entries key) t at from gone in
      let e : MemoryWindow = record {
        count = 1;
        expires_at = at + window_sec * 1000;
        marked = false;
        id = suc c.seq;
      } in
      let same : counted_in c key (window_sec * 1000) at ≡ e = rw (fresh, counted_in) refl in
      inr (
        e,
        there ∙ ap some same,
        span,
        (
          λ on. (refl, ticket ∙ ap (λ (w : MemoryWindow). some w.id) same),
          HasTicket-none fs key e.id none_wait,
        ),
        rw (eq_refl key, none_wait, none_wrong) (omega arith),
        omega (arith, below, ap count_of fresh),
      )
  counted-Kept key t at end c c' fs wrong windows candidate from before span there ticket below
        (inr (e, here, lives, tickets, counted, small)) =
      let now_e : current c.entries key at ≡ some e =
        ap (alive at) here ∙ alive-some at e (omega (arith, lives)) in
      let same : counted_in c key (window_sec * 1000) at ≡ record e { count = e.count + 1 } =
        rw (now_e, counted_in) refl in
      inr (
        record e { count = e.count + 1 },
        there ∙ ap some same,
        lives,
        (λ on. (refl, ticket ∙ ap (λ (w : MemoryWindow). some w.id) same), tickets),
        rw (eq_refl key) (omega (arith, counted)),
        omega (arith, below, ap count_of now_e),
      )

module _ {B : Type 0} (ops : WindowBackend B) (bucket_of : String → String)
    (lookup : String → Lookup) (max window_sec g : ℕ) where
  pub begin-Kept :
      (key : String) (t at end : ℕ) (c : MemoryWindowCounter) (fs : List Flight) (wrong : ℕ)
      (ip candidate : String)
      → t ≤ at
      → at < end
      → end ≤ at + window_sec * 1000
      → Kept max window_sec key t end (c, fs) wrong
      → Kept max window_sec key at end
          (auth_step ops bucket_of lookup max window_sec g key (c, fs) (begins ip candidate at)).0
          wrong
  unfolding auth_step begin_auth take_auth_attempt Facade.take take_local
  begin-Kept key t at end c fs wrong ip candidate from before span kept =
      let bucket = bucket_of ip in
      let taken = Window.take c (bucket ∷ []) (one_of max (window_sec * 1000)) at in
      elim (Bool-cases (str_eq bucket key)) [
        | inr other ↦
            let same = get-take_other c bucket key max (window_sec * 1000) at other in
            let kept' =
              entry-Kept max window_sec key t at end c taken.0 fs wrong from before (inl same)
                kept in
            elim (Bool-cases (is_limited taken.1)) [
              | inl full ↦ rw full kept'
              | inr free ↦
                  rw free
                    (other-Kept max window_sec key at end taken.0 fs wrong _ candidate other kept')
            ]
        | inl named ↦
            let same : bucket ≡ key = (eq_iff bucket key).0 named in
            elim (Bool-cases (is_limited taken.1)) [
              | inl full ↦ rw full (
                  entry-Kept max window_sec key t at end c taken.0 fs wrong from before
                    (inr (
                      subst (λ k. get taken.0.entries k ≡ current c.entries k at) same
                        (current-take_one c bucket max (window_sec * 1000) at full)))
                    kept)
              | inr free ↦
                  let (here, ticket, below) =
                    get-take_one c bucket max (window_sec * 1000) at free in
                  rw free (
                    subst
                      (λ k.
                        Kept max window_sec k t end (c, fs) wrong
                        → Kept max window_sec k at end
                            (
                              taken.0,
                              (
                                some (record {
                                  bucket = bucket;
                                  tag = local_tag;
                                  windows = windows_of taken.1;
                                }),
                                candidate,
                              )
                                  ∷ fs,
                            )
                            wrong)
                      same
                      (counted-Kept max window_sec bucket t at end c taken.0 fs wrong
                        (windows_of taken.1) candidate from before span here ticket below)
                      kept)
            ]
      ]
