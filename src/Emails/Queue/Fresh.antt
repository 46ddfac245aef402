-- ===== src/Emails/Queue/Fresh.antt =====
-- The attempt number of a claim is above those of the email's claims that are still open.
use bunmail.Prelude.{
  ℕ, ◌+◌, ◌≤◌, ◌<◌, ◌≡◌, refl, sym, ap, subst, ◌∙◌, String, true, false, List, [], ◌∷◌, ◌++◌,
  Option, none, some, if◌then◌else◌, str_eq, eq_iff, eq_refl, arith, Bool-cases, inl, inr, All,
  All-imp,
}
use bunmail.Dict.{get, Distinct}
use bunmail.Emails.Queue.{EmailRow, Rows, chosen, returned_in, claimed_row}
use bunmail.Emails.Queue.Lease.{option_map}
use bunmail.Emails.Queue.Log.{Event, claimed, saved, open_attempts, claim_events}

-- No open attempt of an email is above the number in its row.
abbrev pub AboveRow : String → List Event → Option EmailRow → Type 0
AboveRow id log none = Unit
AboveRow id log (some r) = All (λ k. k ≤ r.attempts) (open_attempts id log)

abbrev pub Above : List Event → Rows → Type 0
Above log rows = (id : String) → AboveRow id log (get rows id)

abbrev pub Fresh : List Event → Type 0
Fresh [] = Unit
Fresh (claimed worker c ∷ log) = All (λ k. k < c.attempt) (open_attempts c.email_id log) × Fresh log
Fresh (saved worker c ∷ log) = Fresh log

module _ (worker : String) (ids : List String) (now : ℕ) (log : List Event) where
  abbrev pub events : Rows → List Event
  events rows = claim_events worker (returned_in ids (claimed_row worker now) rows) ++ log

  abbrev pub opened : String → Option EmailRow → List ℕ
  opened id none = open_attempts id log
  opened id (some r) =
      if chosen ids id then (r.attempts + 1) ∷ open_attempts id log else open_attempts id log

  opened_left :
      (id : String) (found : Option EmailRow)
      → chosen ids id ≡ false
      → opened id found ≡ open_attempts id log
  opened_left id none h = refl
  opened_left id (some r) h = rw h refl

  opened_taken :
      (id : String) (r : EmailRow)
      → chosen ids id ≡ true
      → opened id (some r) ≡ (r.attempts + 1) ∷ open_attempts id log
  opened_taken id r h = rw h refl

  pub open_attempts-events :
      (rows : Rows) (id : String)
      → Distinct rows
      → open_attempts id (events rows) ≡ opened id (get rows id)
  unfolding returned_in get
  open_attempts-events [] id d = refl
  open_attempts-events ((j, r) ∷ rows) id (new, d) = elim (Bool-cases (str_eq j id)) [
    | inl t ↦
        (let same : j ≡ id = ground (arith, eq_iff j id) in
          let chosen_same : chosen ids j ≡ chosen ids id = ap (chosen ids) same in
          let missing : get rows id ≡ none = subst (λ k. get rows k ≡ none) same new in
          let rest : open_attempts id (events rows) ≡ open_attempts id log =
            open_attempts-events rows id d ∙ ap (opened id) missing in
          elim (Bool-cases (chosen ids id)) [
            | inl taken ↦
                rw (chosen_same, taken, t) (ap (◌∷◌ (r.attempts + 1)) rest ∙ rw taken refl)
            | inr left ↦ rw (chosen_same, left, t) (rest ∙ sym (opened_left id (some r) left))
          ])
    | inr f ↦ elim (Bool-cases (chosen ids j)) [
      | inl taken ↦ rw (taken, f) (open_attempts-events rows id d)
      | inr left ↦ rw (left, f) (open_attempts-events rows id d)
    ]
  ]

  -- What holds of the rows holds of the later rows.
  Above-tail :
      (j : String) (r : EmailRow) (rows : Rows)
      → get rows j ≡ none
      → Above log ((j, r) ∷ rows)
      → Above log rows
  unfolding get
  Above-tail j r rows new h id = elim (Bool-cases (str_eq j id)) [
    | inl t ↦
        (let same : j ≡ id = ground (arith, eq_iff j id) in
          let missing : get rows id ≡ none = subst (λ k. get rows k ≡ none) same new in
          rw missing tt)
    | inr f ↦ rw f at (h id)
  ]

  pub events-Fresh :
      (rows : Rows) → Distinct rows → Above log rows → Fresh log → Fresh (events rows)
  unfolding returned_in get
  events-Fresh [] d h f = f
  events-Fresh ((j, r) ∷ rows) (new, d) h f =
      let rest = events-Fresh rows d (Above-tail j r rows new h) f in
      let own : All (λ k. k ≤ r.attempts) (open_attempts j log) = rw (eq_refl j) at (h j) in
      let same : open_attempts j (events rows) ≡ open_attempts j log =
        open_attempts-events rows j d ∙ ap (opened j) new in
      elim (Bool-cases (chosen ids j)) [
        | inl taken ↦ rw taken (
          subst (All (λ k. k < r.attempts + 1)) (sym same) (
              All-imp (λ k. k ≤ r.attempts) (λ k. k < r.attempts + 1) (open_attempts j log) own
                (λ k e. omega arith)),
          rest,
        )
        | inr left ↦ rw left rest
      ]

  pub events-AboveRow :
      (id : String) (later : List Event) (found : Option EmailRow)
      → open_attempts id later ≡ opened id found
      → AboveRow id log found
      → AboveRow id later
          (if chosen ids id then option_map (claimed_row worker now) found else found)
  events-AboveRow id later none same h = elim (Bool-cases (chosen ids id)) [
    | inl t ↦ rw t tt
    | inr f ↦ rw f tt
  ]
  events-AboveRow id later (some r) same h = elim (Bool-cases (chosen ids id)) [
    | inl t ↦ rw t (
        subst (All (λ k. k ≤ r.attempts + 1)) (sym (same ∙ opened_taken id r t)) (
          omega arith,
          All-imp (λ k. k ≤ r.attempts) (λ k. k ≤ r.attempts + 1) (open_attempts id log) h
              (λ k e. omega arith),
        ))
    | inr f ↦ rw f (subst (All (λ k. k ≤ r.attempts)) (sym (same ∙ opened_left id (some r) f)) h)
  ]
