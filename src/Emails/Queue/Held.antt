-- ===== src/Emails/Queue/Held.antt =====
-- A row in `sending` names the newest claim of its email, whatever steps are taken.
use bunmail.Prelude.{
  ℕ, ◌+◌, ◌≡◌, refl, sym, ap, subst, ◌∙◌, String, Bool, true, false, ◌&&◌, List, [], ◌∷◌, ◌++◌,
  Option, none, some, if◌then◌else◌, str_eq, eq_iff, arith, Bool-cases, inl, inr,
}
use bunmail.Dict.{get, set, get-set}
use bunmail.Emails.Queue.{
  EmailRow, Rows, is_sending, is_worker, unleased_row, chosen, returned_in, update_one, claimed_row,
  release_own_leases,
}
use bunmail.Emails.Queue.Pick.{Scan, fair_due_email_ids, claim_next_emails}
use bunmail.Emails.Queue.Lease.{update_one-cases, get-release_own_leases, get-update_in, option_map}
use bunmail.Emails.Queue.Log.{Event, claimed, latest, claim_events, Queue}

-- The newest event of an email whose row is in `sending` is the claim that the row names.
abbrev pub HeldRow : String → List Event → Option EmailRow → Type 0
HeldRow id log none = Unit
HeldRow id log (some r) =
    is_sending r.status ≡ true
    → (worker : String) × (r.locked_by ≡ some worker)
      × (latest id log ≡ some (claimed worker (record { email_id = id; attempt = r.attempts })))

abbrev pub Held : Queue → Type 0
Held q = (id : String) → HeldRow id q.log (get q.rows id)

-- An update of one row that keeps its claim, or takes it out of `sending`.
abbrev pub KeepsClaim : (EmailRow → Bool) → (EmailRow → EmailRow) → Type 0
KeepsClaim test f =
    (r : EmailRow)
    → test r ≡ true
    → is_sending (f r).status ≡ true
    → (is_sending r.status ≡ true) × ((f r).locked_by ≡ r.locked_by) × ((f r).attempts ≡ r.attempts)

module _ (rows : Rows) (log : List Event)
    (held : (id : String) → HeldRow id log (get rows id)) where
  set-Held :
      (i : String) (r r' : EmailRow)
      → get rows i ≡ some r
      → (is_sending r'.status ≡ true
          → (is_sending r.status ≡ true)
            × (r'.locked_by ≡ r.locked_by)
            × (r'.attempts ≡ r.attempts))
      → (id : String) → HeldRow id log (get (set rows i r') id)
  set-Held i r r' here keeps id = elim (Bool-cases (str_eq i id)) [
    | inl t ↦
        rw (get-set rows i r' id, t)
          (λ sending.
            let same : i ≡ id = ground (arith, eq_iff i id) in
            let (was, worker, count) = keeps sending in
            let (w, lock, newest) =
              (subst (HeldRow id log) (ap (get rows) (sym same) ∙ here) (held id)) was in
            (
              w,
              worker ∙ lock,
              newest
                  ∙ ap (λ k. some (claimed w (record { email_id = id; attempt = k }))) (sym count),
            ))
    | inr f ↦ rw (get-set rows i r' id, f) (held id)
  ]

  pub update_one-Held :
      (i : String) (test : EmailRow → Bool) (f : EmailRow → EmailRow)
      → KeepsClaim test f
      → (id : String) → HeldRow id log (get (update_one rows i test f).0 id)
  update_one-Held i test f keeps id = elim (update_one-cases rows i test f) [
    | inl left ↦ subst (λ (u : Rows × Bool). HeldRow id log (get u.0 id)) (sym left) (held id)
    | inr (r, here, t, done) ↦
        subst (λ (u : Rows × Bool). HeldRow id log (get u.0 id)) (sym done)
          (set-Held i r (f r) here (keeps r t) id)
  ]

  pub release_own_leases-Held :
      (worker : String) (now : ℕ) (id : String)
      → HeldRow id log (get (release_own_leases rows worker now) id)
  release_own_leases-Held worker now id =
      subst (HeldRow id log) (sym (get-release_own_leases rows worker now id))
        (unleased (get rows id) (held id))
    where
      unleased :
          (found : Option EmailRow)
          → HeldRow id log found
          → HeldRow id log (option_map (unleased_row worker now) found)
      unleased none h = tt
      unleased (some r) h =
          elim (Bool-cases (is_worker r.locked_by worker && is_sending r.status)) [
            | inl t ↦ rw t h
            | inr f ↦ rw f h
          ]

-- The newest event of an email after a claim of the chosen ids.
module _ (worker : String) (ids : List String) (now : ℕ) (log : List Event) (id : String) where
  abbrev newest_after : Option EmailRow → Option Event
  newest_after none = latest id log
  newest_after (some r) =
      if chosen ids id
      then some (claimed worker (record { email_id = id; attempt = r.attempts + 1 }))
      else latest id log

  newest_after_left :
      (found : Option EmailRow) → chosen ids id ≡ false → newest_after found ≡ latest id log
  newest_after_left none h = refl
  newest_after_left (some r) h = rw h refl

  latest-claim_events :
      (rows : Rows)
      → latest id (claim_events worker (returned_in ids (claimed_row worker now) rows) ++ log)
        ≡ newest_after (get rows id)
  unfolding returned_in get
  latest-claim_events [] = refl
  latest-claim_events ((j, r) ∷ rows) = elim (Bool-cases (str_eq j id)) [
    | inl t ↦
        (let same : j ≡ id = ground (arith, eq_iff j id) in
          let chosen_same : chosen ids j ≡ chosen ids id = ap (chosen ids) same in
          elim (Bool-cases (chosen ids id)) [
            | inl taken ↦
                rw (chosen_same, taken, t)
                  (ap
                      (λ i.
                        some (claimed worker (record { email_id = i; attempt = r.attempts + 1 })))
                      same
                    ∙ rw taken refl)
            | inr left ↦
                rw (chosen_same, left, t)
                  (latest-claim_events rows
                    ∙ newest_after_left (get rows id) left
                    ∙ sym (newest_after_left (some r) left))
          ])
    | inr f ↦ elim (Bool-cases (chosen ids j)) [
      | inl taken ↦ rw (taken, f) (latest-claim_events rows)
      | inr left ↦ rw (left, f) (latest-claim_events rows)
    ]
  ]

  claimed-HeldRow :
      (later : List Event) (found : Option EmailRow)
      → latest id later ≡ newest_after found
      → HeldRow id log found
      → HeldRow id later
          (if chosen ids id then option_map (claimed_row worker now) found else found)
  claimed-HeldRow later none newest h = elim (Bool-cases (chosen ids id)) [
    | inl t ↦ rw t tt
    | inr f ↦ rw f tt
  ]
  claimed-HeldRow later (some r) newest h = elim (Bool-cases (chosen ids id)) [
    | inl t ↦ rw t (λ _. (worker, refl, newest ∙ rw t refl))
    | inr f ↦ rw f (λ sending. let (w, lock, before) = h sending in (w, lock, newest ∙ rw f before))
  ]

pub claim_next_emails-Held :
    (q : Queue) (worker : String) (scan : Scan) (n : ℕ) (id : String)
    → Held q
    → HeldRow id
        (claim_events worker (claim_next_emails q.rows worker scan n).1 ++ q.log)
        (get (claim_next_emails q.rows worker scan n).0 id)
unfolding claim_next_emails
claim_next_emails-Held q worker scan n id held =
    let ids = fair_due_email_ids scan n q.rows in
    let later =
      claim_events worker (returned_in ids (claimed_row worker scan.now) q.rows) ++ q.log in
    subst (HeldRow id later) (sym (get-update_in ids (claimed_row worker scan.now) q.rows id)) (
      claimed-HeldRow worker ids scan.now q.log id later (get q.rows id)
        (latest-claim_events worker ids scan.now q.log id q.rows) (held id))
