-- ===== src/Emails/Queue/Fenced.antt =====
-- Only the newest claim of an email saves an outcome, and only once.
use bunmail.Prelude.{
  ℕ, ◌≡◌, refl, sym, subst, ◌∙◌, String, Bool, true, false, List, [], ◌∷◌, ◌++◌, Option, none, some,
  str_eq, eq_iff, arith, Bool-cases, inl, inr, All,
}
use bunmail.Dict.{get, set, get-set}
use bunmail.Emails.Row.{RowValues}
use bunmail.Emails.Attempt.{claim_of, attempt_values, attempt_values-Releases}
use bunmail.Emails.Queue.{
  EmailRow, Rows, Claim, is_sending, held_by, released_row, renew_lease, release_row, trash_email,
  restore_email, mark_email_bounced, mark_email_blocked,
}
use bunmail.Emails.Queue.Pick.{claim_next_emails}
use bunmail.Emails.Queue.Lease.{update_one-cases}
use bunmail.Emails.Queue.Log.{
  Event, claimed, saved, latest, claim_events, save_events, Queue, QueueStep, by_claim, by_renewal,
  by_shutdown, by_outcome, by_trash, by_restore, by_bounce, by_block, QueueSteps, steps_keep,
}
use bunmail.Emails.Queue.Held.{
  HeldRow, Held, update_one-Held, release_own_leases-Held, claim_next_emails-Held,
}

-- Each saved outcome is the outcome of the claim that was the email's newest event then.
abbrev pub Fenced : List Event → Type 0
Fenced [] = Unit
Fenced (claimed worker c ∷ log) = Fenced log
Fenced (saved worker c ∷ log) = (latest c.email_id log ≡ some (claimed worker c)) × Fenced log

claim_events-Fenced :
    (worker : String) (rows : Rows) (log : List Event)
    → Fenced log
    → Fenced (claim_events worker rows ++ log)
claim_events-Fenced worker [] log h = h
claim_events-Fenced worker ((id, r) ∷ rows) log h = claim_events-Fenced worker rows log h

-- A saved outcome.
held_by-claimed :
    (worker : String) (c : Claim) (r : EmailRow) (log : List Event)
    → held_by worker c r ≡ true
    → HeldRow c.email_id log (some r)
    → latest c.email_id log ≡ some (claimed worker c)
held_by-claimed worker c r log test h =
    let (w, lock, newest) = h (ground arith) in
    let who : w ≡ worker = ground (arith, eq_iff w worker) in
    let count : r.attempts ≡ c.attempt = ground arith in
    newest ∙ (λ i. some (claimed (who i) (record { email_id = c.email_id; attempt = count i })))

-- An outcome that is saved, or is refused and changes nothing.
module _ (q : Queue) (held : Held q) (worker : String) (c : Claim) (values : RowValues) (now : ℕ)
    (leaves : is_sending values.status ≡ false) where
  abbrev saving : Rows × Bool
  saving = release_row q.rows worker c values now

  set-HeldRow :
      (r : EmailRow) (id : String)
      → HeldRow id
          (saved worker c ∷ q.log)
          (get (set q.rows c.email_id (released_row values now r)) id)
  set-HeldRow r id = elim (Bool-cases (str_eq c.email_id id)) [
    | inl t ↦ rw (get-set q.rows c.email_id (released_row values now r) id, t) (λ sending. cc)
    | inr f ↦
        rw (get-set q.rows c.email_id (released_row values now r) id, f)
          (unmoved f (get q.rows id) (held id))
  ]
    where
      unmoved :
          str_eq c.email_id id ≡ false
          → (found : Option EmailRow) → HeldRow id q.log found
          → HeldRow id (saved worker c ∷ q.log) found
      unmoved f none h = tt
      unmoved f (some v) h = λ sending. let (w, lock, newest) = h sending in (w, lock, rw f newest)

  release_row-Held :
      (id : String) → HeldRow id (save_events worker c saving.1 ++ q.log) (get saving.0 id)
  unfolding release_row
  release_row-Held id =
      elim (update_one-cases q.rows c.email_id (held_by worker c) (released_row values now)) [
        | inl left ↦
            subst (λ (u : Rows × Bool). HeldRow id (save_events worker c u.1 ++ q.log) (get u.0 id))
              (sym left) (held id)
        | inr (r, here, t, done) ↦
            subst (λ (u : Rows × Bool). HeldRow id (save_events worker c u.1 ++ q.log) (get u.0 id))
              (sym done) (set-HeldRow r id)
      ]

  release_row-Fenced : Fenced q.log → Fenced (save_events worker c saving.1 ++ q.log)
  unfolding release_row
  release_row-Fenced h =
      elim (update_one-cases q.rows c.email_id (held_by worker c) (released_row values now)) [
        | inl left ↦
            subst (λ (u : Rows × Bool). Fenced (save_events worker c u.1 ++ q.log)) (sym left) h
        | inr (r, here, t, done) ↦
            subst (λ (u : Rows × Bool). Fenced (save_events worker c u.1 ++ q.log)) (sym done)
              (
                held_by-claimed worker c r q.log t
                    (subst (HeldRow c.email_id q.log) here (held c.email_id)),
                h,
              )
      ]

abbrev Sound : Queue → Type 0
Sound q = Held q × Fenced q.log

Sound-QueueStep : (q u : Queue) → QueueStep q u → Sound q → Sound u
unfolding renew_lease trash_email restore_email mark_email_bounced mark_email_blocked
Sound-QueueStep q _ (by_claim worker scan n) (held, fenced) = (
  λ id. claim_next_emails-Held q worker scan n id held,
  claim_events-Fenced worker (claim_next_emails q.rows worker scan n).1 q.log fenced,
)
Sound-QueueStep q _ (by_renewal worker c now) (held, fenced) = (
  update_one-Held q.rows q.log held c.email_id _ _ (λ r t sending. (sending, refl, refl)),
  fenced,
)
Sound-QueueStep q _ (by_shutdown worker now) (held, fenced) =
    (release_own_leases-Held q.rows q.log held worker now, fenced)
Sound-QueueStep q _ (by_outcome worker s email key_active production domain result now)
      (held, fenced) =
    let values = attempt_values s email key_active production domain result in
    let leaves = (attempt_values-Releases s email key_active production domain result).0 in
    (
      release_row-Held q held worker (claim_of email) values now leaves,
      release_row-Fenced q held worker (claim_of email) values now leaves fenced,
    )
Sound-QueueStep q _ (by_trash id key now) (held, fenced) =
    (update_one-Held q.rows q.log held id _ _ (λ r t sending. (sending, refl, refl)), fenced)
Sound-QueueStep q _ (by_restore id key) (held, fenced) =
    (update_one-Held q.rows q.log held id _ _ (λ r t sending. (sending, refl, refl)), fenced)
Sound-QueueStep q _ (by_bounce id now) (held, fenced) =
    (update_one-Held q.rows q.log held id _ _ (λ r t sending. cc), fenced)
Sound-QueueStep q _ (by_block id now) (held, fenced) =
    (update_one-Held q.rows q.log held id _ _ (λ r t sending. cc), fenced)

-- No row is in a claim yet.
abbrev pub AllIdle : Rows → Type 0
AllIdle rows = All (λ e. is_sending e.1.status ≡ false) rows

idle-Held : (rows : Rows) (id : String) → AllIdle rows → HeldRow id [] (get rows id)
unfolding get
idle-Held [] id h = tt
idle-Held ((j, r) ∷ rows) id (idle, h) = elim (Bool-cases (str_eq j id)) [
  | inl t ↦ rw t (λ sending. cc)
  | inr f ↦ rw f (idle-Held rows id h)
]

-- Whatever workers and the API do, and in whatever order, from a table without claims on: each
-- outcome that is saved for an email comes from the claim that is the email's newest event at that
-- moment. So a claim saves at most one outcome, and a worker that lost its lease to another claim
-- saves none.
pub Fenced-QueueSteps :
    (rows : Rows) (v : Queue)
    → AllIdle rows
    → QueueSteps (record { rows = rows; log = [] }) v
    → Fenced v.log
Fenced-QueueSteps rows v idle steps =
    (steps_keep Sound Sound-QueueStep (record { rows = rows; log = [] }) v steps
      (λ id. idle-Held rows id idle, tt)).1
