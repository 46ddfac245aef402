-- ===== src/Emails/Queue/Lease.antt =====
-- What the updates leave in a row, and that a claim takes only rows that may be claimed.
use bunmail.Prelude.{
  ℕ, ◌≤◌, ◌≡◌, refl, String, Bool, true, false, List, [], ◌∷◌, Option, none, some, if◌then◌else◌,
  str_eq, eq_iff, arith, Bool-cases, Option-cases, inl, inr, ◌∙◌, ap, ◌⊎◌,
}
use bunmail.Dict.{get, set}
use bunmail.Emails.Queue.{
  EmailRow, Rows, chosen, is_queued, is_sending, is_null, lease_expired, update_in, update_found,
  update_one, unleased_row, release_own_leases,
}
use bunmail.Emails.Queue.Pick.{Scan}

-- A row that may be claimed: due in the queue, or in a claim whose lease has expired; not in the trash.
abbrev pub Claimable : Scan → EmailRow → Type 0
Claimable scan r =
    (is_null r.deleted_at ≡ true)
    × (((is_queued r.status ≡ true) × (r.next_attempt_at ≤ scan.now))
        ⊎ ((is_sending r.status ≡ true) × (lease_expired scan.now r ≡ true)))

-- An update of one row leaves the table, or sets the row that it found.
pub update_one-cases :
    (rows : Rows) (id : String) (test : EmailRow → Bool) (f : EmailRow → EmailRow)
    → (update_one rows id test f ≡ (rows, false))
      ⊎ ((r : EmailRow) × (get rows id ≡ some r)
          × (test r ≡ true)
          × (update_one rows id test f ≡ (set rows id (f r), true)))
unfolding update_one
update_one-cases rows id test f = elim (Option-cases (get rows id)) [
  | inl missing ↦ inl (ap (update_found rows id test f) missing)
  | inr (r, here) ↦ elim (Bool-cases (test r)) [
    | inl t ↦ inr (
      r,
      here,
      t,
      ap (update_found rows id test f) here
          ∙ ap (λ b. if b then (set rows id (f r), true) else (rows, false)) t,
    )
    | inr no_match ↦ inl (
        ap (update_found rows id test f) here
        ∙ ap (λ b. if b then (set rows id (f r), true) else (rows, false)) no_match)
  ]
]

abbrev pub option_map : (EmailRow → EmailRow) → Option EmailRow → Option EmailRow
option_map f none = none
option_map f (some r) = some (f r)

pub get-update_in :
    (ids : List String) (f : EmailRow → EmailRow) (rows : Rows) (id : String)
    → get (update_in ids f rows) id
      ≡ (if chosen ids id then option_map f (get rows id) else get rows id)
unfolding update_in get
get-update_in ids f [] id = ground arith
get-update_in ids f ((j, r) ∷ rows) id = ground (arith, eq_iff j id, get-update_in ids f rows id)

pub get-release_own_leases :
    (rows : Rows) (worker : String) (now : ℕ) (id : String)
    → get (release_own_leases rows worker now) id
      ≡ option_map (unleased_row worker now) (get rows id)
unfolding release_own_leases get
get-release_own_leases [] worker now id = refl
get-release_own_leases ((j, r) ∷ rows) worker now id = elim (Bool-cases (str_eq j id)) [
  | inl t ↦ rw t refl
  | inr f ↦ rw f (get-release_own_leases rows worker now id)
]
