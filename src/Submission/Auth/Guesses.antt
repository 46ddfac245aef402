-- ===== src/Submission/Auth/Guesses.antt =====
-- How many wrong credentials one address can try.
use bunmail.Prelude.{
  ℕ, ◌+◌, ◌*◌, ◌≤◌, ◌<◌, ◌≡◌, subst, inl, inr, refl, String, List, [], ◌∷◌, none, arith,
}
use bunmail.Shared.Window.{MemoryWindowCounter}
use bunmail.Shared.Window.View.{current}
use bunmail.Shared.Facade.{WindowBackend}
use bunmail.Submission.Auth.{Lookup}
use bunmail.Submission.Auth.Flights.{
  State, Flight, AuthEvent, begins, ends, time_of, InOrder, waiting,
}
use bunmail.Submission.Auth.Steps.{auth_step, wrong_guesses}
use bunmail.Submission.Auth.Kept.{Kept, begin-Kept}
use bunmail.Submission.Auth.Ended.{end-Kept}

module _ {B : Type 0} (ops : WindowBackend B) (bucket_of : String → String)
    (lookup : String → Lookup) (max window_sec g : ℕ) where
  step-Kept :
      (key : String) (t end : ℕ) (s : State) (wrong : ℕ) (a : AuthEvent)
      → t ≤ time_of a
      → time_of a < end
      → end ≤ time_of a + window_sec * 1000
      → Kept max window_sec key t end s wrong
      → let (s', tried) = auth_step ops bucket_of lookup max window_sec g key s a in
        Kept max window_sec key (time_of a) end s' (wrong + tried)
  unfolding auth_step
  step-Kept key t end (c, fs) wrong (begins ip candidate at) from before span kept =
      subst
        (Kept max window_sec key at end
          (auth_step ops bucket_of lookup max window_sec g key (c, fs) (begins ip candidate at)).0)
        (let same : wrong
              ≡ wrong
                + (auth_step ops bucket_of lookup max window_sec g key (c, fs)
                    (begins ip candidate at)).1 =
            add_nothing wrong _ begin_nothing in
          same)
        (begin-Kept ops bucket_of lookup max window_sec g key t at end c fs wrong ip candidate from
          before span kept)
    where
      begin_nothing :
          (auth_step ops bucket_of lookup max window_sec g key (c, fs) (begins ip candidate at)).1
          ≡ 0
      begin_nothing = refl

      add_nothing : (a b : ℕ) → b ≡ 0 → a ≡ a + b
      add_nothing a b h = omega (arith, h)
  step-Kept key t end (c, fs) wrong (ends i at) from before span kept =
      end-Kept ops bucket_of lookup max window_sec g key t at end i c fs wrong from before kept

  wrong_guesses-Kept :
      (more : List AuthEvent) (key : String) (t end : ℕ) (s : State) (wrong : ℕ)
      → InOrder t end more
      → end ≤ t + window_sec * 1000
      → Kept max window_sec key t end s wrong
      → wrong + wrong_guesses ops bucket_of lookup max window_sec g key s more ≤ max
  unfolding wrong_guesses
  wrong_guesses-Kept [] key t end s wrong order span (inl (gone, none_wait, none_wrong)) =
      omega (arith, none_wrong)
  wrong_guesses-Kept [] key t end s wrong order span
        (inr (e, here, lives, tickets, counted, small)) =
      omega (arith, counted, small)
  wrong_guesses-Kept (a ∷ more) key t end s wrong (from, before, order) span kept = omega (
    arith,
    wrong_guesses-Kept more key (time_of a) end
        (auth_step ops bucket_of lookup max window_sec g key s a).0
        (wrong + (auth_step ops bucket_of lookup max window_sec g key s a).1) order
        (omega (arith, from, span))
        (step-Kept key t end s wrong a from before (omega (arith, from, span)) kept),
  )

  -- Guessing is bounded, also by attempts that overlap: from a moment at which a bucket has no live
  -- window and no attempt of it waits for its lookup, at most the maximum of wrong credentials are
  -- tried from it within one window's length, over any steps in the order of their times, of which
  -- each begins an attempt from some address or ends the lookup of one that waits, and whatever
  -- succeeds, fails to be looked up or is tried from other buckets in between. The limit is on, and
  -- the counts are kept in this process's memory and are not swept meanwhile.
  pub wrong_guesses-le-max :
      (c : MemoryWindowCounter) (fs : List Flight) (key : String) (t : ℕ) (steps : List AuthEvent)
      → current c.entries key t ≡ none
      → waiting key fs ≡ 0
      → InOrder t (t + window_sec * 1000) steps
      → wrong_guesses ops bucket_of lookup max window_sec g key (c, fs) steps ≤ max
  wrong_guesses-le-max c fs key t steps gone none_wait order = omega (
    arith,
    wrong_guesses-Kept steps key t (t + window_sec * 1000) (c, fs) 0 order (omega arith)
        (inl (gone, none_wait, refl)),
  )
