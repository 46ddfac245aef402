-- ===== src/Emails/Queue/Numbers.antt =====
-- The steps keep the attempt numbers of claims apart.
use bunmail.Prelude.{
  ℕ, ◌-◌, ◌≤◌, ◌≡◌, refl, sym, ap, subst, ◌∙◌, String, Bool, true, false, not, ◌&&◌, List, [], ◌∷◌,
  ◌++◌, Option, none, some, if◌then◌else◌, str_eq, eq_iff, eq_refl, ◌==◌, filter, arith, Bool-cases,
  inl, inr, All, All-filter,
}
use bunmail.Dict.{get, set, get-set, get-set_self, Distinct, set-Distinct}
use bunmail.Emails.Row.{RowValues}
use bunmail.Emails.Delivery.{ClaimedEmail}
use bunmail.Emails.Decision.Releases.{Releases}
use bunmail.Emails.Attempt.{claim_of, attempt_values, attempt_values-Releases}
use bunmail.Emails.Queue.{
  EmailRow, Rows, Claim, is_sending, is_worker, unleased_row, chosen, update_in, returned_in,
  update_one, claimed_row, held_by, released_row, renew_lease, release_own_leases, release_row,
  trash_email, restore_email, mark_email_bounced, mark_email_blocked,
}
use bunmail.Emails.Queue.Pick.{Scan, fair_due_email_ids, claim_next_emails}
use bunmail.Emails.Queue.Lease.{update_one-cases, get-release_own_leases, get-update_in, option_map}
use bunmail.Emails.Queue.Log.{
  Event, saved, open_attempts, claim_events, save_events, Queue, QueueStep, by_claim, by_renewal,
  by_shutdown, by_outcome, by_trash, by_restore, by_bounce, by_block, QueueSteps, steps_keep,
}
use bunmail.Emails.Queue.Fresh.{
  AboveRow, Above, Fresh, open_attempts-events, events-Fresh, events-AboveRow,
}

update_in-Distinct :
    (ids : List String) (f : EmailRow → EmailRow) (rows : Rows)
    → Distinct rows
    → Distinct (update_in ids f rows)
unfolding update_in
update_in-Distinct ids f [] d = tt
update_in-Distinct ids f ((j, r) ∷ rows) (new, d) = (
  get-update_in ids f rows j ∙ unmade (chosen ids j) (get rows j) new,
  update_in-Distinct ids f rows d,
)
  where
    unmade :
        (b : Bool) (found : Option EmailRow)
        → found ≡ none
        → (if b then option_map f found else found) ≡ none
    unmade true none h = refl
    unmade false none h = refl
    unmade b (some r) h = cc

release_own_leases-Distinct :
    (rows : Rows) (worker : String) (now : ℕ)
    → Distinct rows
    → Distinct (release_own_leases rows worker now)
unfolding release_own_leases
release_own_leases-Distinct [] worker now d = tt
release_own_leases-Distinct ((j, r) ∷ rows) worker now (new, d) = (
  get-release_own_leases rows worker now j ∙ ap (option_map (unleased_row worker now)) new,
  release_own_leases-Distinct rows worker now d,
)

module _ (rows : Rows) (log : List Event) where
  set-Above :
      (i : String) (r r' : EmailRow)
      → Above log rows
      → get rows i ≡ some r
      → r'.attempts ≡ r.attempts
      → Above log (set rows i r')
  set-Above i r r' above here same id = elim (Bool-cases (str_eq i id)) [
    | inl t ↦
        rw (get-set rows i r' id, t)
          (let e : i ≡ id = ground (arith, eq_iff i id) in
            subst (λ (m : ℕ). All (λ k. k ≤ m) (open_attempts id log)) (sym same)
              (subst (AboveRow id log) (ap (get rows) (sym e) ∙ here) (above id)))
    | inr f ↦ rw (get-set rows i r' id, f) (above id)
  ]

  -- An update of one row that keeps its number of attempts.
  update_one-Above :
      (i : String) (test : EmailRow → Bool) (f : EmailRow → EmailRow)
      → ((r : EmailRow) → (f r).attempts ≡ r.attempts)
      → Distinct rows × Above log rows
      → Distinct (update_one rows i test f).0 × Above log (update_one rows i test f).0
  update_one-Above i test f keeps (distinct, above) = elim (update_one-cases rows i test f) [
    | inl left ↦
        subst (λ (u : Rows × Bool). Distinct u.0 × Above log u.0) (sym left) (distinct, above)
    | inr (r, here, t, done) ↦
        subst (λ (u : Rows × Bool). Distinct u.0 × Above log u.0) (sym done)
          (set-Distinct rows i (f r) distinct, set-Above i r (f r) above here (keeps r))
  ]

  release_own_leases-Above :
      (worker : String) (now : ℕ) → Above log rows → Above log (release_own_leases rows worker now)
  release_own_leases-Above worker now above id =
      subst (AboveRow id log) (sym (get-release_own_leases rows worker now id))
        (unleased (get rows id) (above id))
    where
      unleased :
          (found : Option EmailRow)
          → AboveRow id log found
          → AboveRow id log (option_map (unleased_row worker now) found)
      unleased none h = tt
      unleased (some r) h =
          elim (Bool-cases (is_worker r.locked_by worker && is_sending r.status)) [
            | inl t ↦ rw t h
            | inr f ↦ rw f h
          ]

-- The numbers left open when a claim is closed, where the attempt may have been taken back.
closed :
    (attempt : ℕ) (ks : List ℕ)
    → All (λ k. k ≤ attempt) ks
    → All (λ k. k ≤ attempt - 1) (filter (λ k. not (k == attempt)) ks)
closed attempt [] h = tt
closed attempt (k ∷ ks) (le, h) = elim (Bool-cases (k == attempt)) [
  | inl t ↦ rw t (closed attempt ks h)
  | inr f ↦ rw f (ground arith, closed attempt ks h)
]

module _ (q : Queue) (distinct : Distinct q.rows) (above : Above q.log q.rows) (worker : String)
    (email : ClaimedEmail) (values : RowValues) (now : ℕ) (releases : Releases email values) where
  abbrev c : Claim
  c = claim_of email

  abbrev saving : Rows × Bool
  saving = release_row q.rows worker c values now

  left_open :
      (r : EmailRow)
      → r.attempts ≡ email.attempts
      → All (λ k. k ≤ r.attempts) (open_attempts email.id q.log)
      → All
          (λ k. k ≤ (released_row values now r).attempts)
          (filter (λ k. not (k == email.attempts)) (open_attempts email.id q.log))
  left_open r same h = elim (releases.1) [
    | inl kept ↦ rw kept (
        All-filter (λ k. k ≤ r.attempts) (λ k. not (k == email.attempts))
          (open_attempts email.id q.log) h)
    | inr back ↦ rw back (
        closed email.attempts (open_attempts email.id q.log)
          (subst (λ (m : ℕ). All (λ k. k ≤ m) (open_attempts email.id q.log)) same h))
  ]

  own_row :
      (r : EmailRow)
      → r.attempts ≡ email.attempts
      → All (λ k. k ≤ r.attempts) (open_attempts email.id q.log)
      → AboveRow email.id (saved worker c ∷ q.log) (some (released_row values now r))
  own_row r same h = rw (eq_refl email.id) (left_open r same h)

  set-saved-Above :
      (r : EmailRow)
      → get q.rows email.id ≡ some r
      → r.attempts ≡ email.attempts
      → Above (saved worker c ∷ q.log) (set q.rows email.id (released_row values now r))
  set-saved-Above r here same id = elim (Bool-cases (str_eq email.id id)) [
    | inl t ↦
        (let e : email.id ≡ id = ground (arith, eq_iff email.id id) in
          subst
            (λ i.
              AboveRow i (saved worker c ∷ q.log)
                (get (set q.rows email.id (released_row values now r)) i))
            e
            (subst (AboveRow email.id (saved worker c ∷ q.log))
              (sym (get-set_self q.rows email.id (released_row values now r)))
              (own_row r same (subst (AboveRow email.id q.log) here (above email.id)))))
    | inr f ↦
        rw (get-set q.rows email.id (released_row values now r) id, f)
          (unmoved id f (get q.rows id) (above id))
  ]
    where
      unmoved :
          (id : String)
          → str_eq email.id id ≡ false
          → (found : Option EmailRow) → AboveRow id q.log found
          → AboveRow id (saved worker c ∷ q.log) found
      unmoved id f none h = tt
      unmoved id f (some v) h = rw f h

  abbrev Kept : Rows × Bool → Type 0
  Kept u =
      Distinct u.0
      × Above (save_events worker c u.1 ++ q.log) u.0
      × Fresh (save_events worker c u.1 ++ q.log)

  release_row-Kept : Fresh q.log → Kept saving
  unfolding release_row
  release_row-Kept fresh =
      elim (update_one-cases q.rows email.id (held_by worker c) (released_row values now)) [
        | inl left ↦ subst Kept (sym left) (distinct, above, fresh)
        | inr (r, here, t, done) ↦ subst Kept (sym done) (
          set-Distinct q.rows email.id (released_row values now r) distinct,
          set-saved-Above r here (ground arith),
          fresh,
        )
      ]

abbrev Sound : Queue → Type 0
Sound q = Distinct q.rows × Above q.log q.rows × Fresh q.log

claim_next_emails-Sound :
    (q : Queue) (worker : String) (scan : Scan) (n : ℕ)
    → Sound q
    → Sound (record {
      rows = (claim_next_emails q.rows worker scan n).0;
      log = claim_events worker (claim_next_emails q.rows worker scan n).1 ++ q.log;
    })
unfolding claim_next_emails
claim_next_emails-Sound q worker scan n (distinct, above, fresh) =
    let ids = fair_due_email_ids scan n q.rows in
    let later =
      claim_events worker (returned_in ids (claimed_row worker scan.now) q.rows) ++ q.log in
    (
      update_in-Distinct ids (claimed_row worker scan.now) q.rows distinct,
      (λ id.
          subst (AboveRow id later)
            (sym (get-update_in ids (claimed_row worker scan.now) q.rows id))
            (events-AboveRow worker ids scan.now q.log id later (get q.rows id)
              (open_attempts-events worker ids scan.now q.log q.rows id distinct) (above id))),
      events-Fresh worker ids scan.now q.log q.rows distinct above fresh,
    )

kept-Fresh :
    (q : Queue) (rows : Rows)
    → Fresh q.log
    → Distinct rows × Above q.log rows
    → Sound (record q { rows = rows })
kept-Fresh q rows fresh (distinct, above) = (distinct, above, fresh)

Sound-QueueStep : (q u : Queue) → QueueStep q u → Sound q → Sound u
unfolding renew_lease trash_email restore_email mark_email_bounced mark_email_blocked
Sound-QueueStep q _ (by_claim worker scan n) h = claim_next_emails-Sound q worker scan n h
Sound-QueueStep q _ (by_renewal worker c now) (d, a, f) =
    kept-Fresh q _ f (update_one-Above q.rows q.log c.email_id _ _ (λ r. refl) (d, a))
Sound-QueueStep q _ (by_shutdown worker now) (d, a, f) = (
  release_own_leases-Distinct q.rows worker now d,
  release_own_leases-Above q.rows q.log worker now a,
  f,
)
Sound-QueueStep q _ (by_outcome worker s email key_active production domain result now) (d, a, f) =
    release_row-Kept q d a worker email (attempt_values s email key_active production domain result)
      now (attempt_values-Releases s email key_active production domain result) f
Sound-QueueStep q _ (by_trash id key now) (d, a, f) =
    kept-Fresh q _ f (update_one-Above q.rows q.log id _ _ (λ r. refl) (d, a))
Sound-QueueStep q _ (by_restore id key) (d, a, f) =
    kept-Fresh q _ f (update_one-Above q.rows q.log id _ _ (λ r. refl) (d, a))
Sound-QueueStep q _ (by_bounce id now) (d, a, f) =
    kept-Fresh q _ f (update_one-Above q.rows q.log id _ _ (λ r. refl) (d, a))
Sound-QueueStep q _ (by_block id now) (d, a, f) =
    kept-Fresh q _ f (update_one-Above q.rows q.log id _ _ (λ r. refl) (d, a))

empty-Above : (rows : Rows) → Above [] rows
empty-Above rows id = nothing (get rows id)
  where
    nothing : (found : Option EmailRow) → AboveRow id [] found
    nothing none = tt
    nothing (some r) = tt

-- Whatever workers and the API do, and in whatever order, from a table with distinct ids on: the
-- attempt number of every claim is above the numbers of all claims of the same email that are still
-- open, so a worker that lost its lease is never taken for a later claim, although a deferral takes
-- an attempt back.
pub Fresh-QueueSteps :
    (rows : Rows) (v : Queue)
    → Distinct rows
    → QueueSteps (record { rows = rows; log = [] }) v
    → Fresh v.log
Fresh-QueueSteps rows v distinct steps =
    (steps_keep Sound Sound-QueueStep (record { rows = rows; log = [] }) v steps
      (distinct, empty-Above rows, tt)).2
