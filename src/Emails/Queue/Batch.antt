-- ===== src/Emails/Queue/Batch.antt =====
-- A claim returns at most as many rows as it asks for.
use bunmail.Prelude.{
  ℕ, suc, ◌≤◌, ◌≡◌, refl, ap, subst, String, List, [], ◌∷◌, none, str_eq, eq_iff, length,
  length-take-le, arith, Bool-cases, inl, inr,
}
use bunmail.Dict.{get, Distinct}
use bunmail.Emails.Queue.{EmailRow, Rows, returned_in, claimed_row}
use bunmail.Emails.Queue.Pick.{
  Scan, Candidate, ranked, fair_due_emails, ids_of, fair_due_email_ids, claim_next_emails,
}

module _ (f : EmailRow → EmailRow) where
  returned_in-nil : (rows : Rows) → returned_in [] f rows ≡ []
  unfolding returned_in
  returned_in-nil [] = refl
  returned_in-nil ((j, r) ∷ rows) = returned_in-nil rows

  -- An id that no row has returns nothing.
  returned_in-absent :
      (i : String) (ids : List String) (rows : Rows)
      → get rows i ≡ none
      → returned_in (i ∷ ids) f rows ≡ returned_in ids f rows
  unfolding returned_in get
  returned_in-absent i ids [] h = refl
  returned_in-absent i ids ((j, r) ∷ rows) h =
      ground (arith, eq_iff i j, eq_iff j i, returned_in-absent i ids rows)

  length-returned_in-cons :
      (i : String) (ids : List String) (rows : Rows)
      → Distinct rows
      → length (returned_in (i ∷ ids) f rows) ≤ suc (length (returned_in ids f rows))
  unfolding returned_in
  length-returned_in-cons i ids [] d = omega arith
  length-returned_in-cons i ids ((j, r) ∷ rows) (new, d) = elim (Bool-cases (str_eq i j)) [
    | inl t ↦
        (let e : j ≡ i = ground (arith, eq_iff i j) in
          let same = returned_in-absent i ids rows (subst (λ k. get rows k ≡ none) e new) in
          rw (t, same) (ground arith))
    | inr o ↦ rw o (ground (arith, length-returned_in-cons i ids rows d))
  ]

  length-returned_in-le :
      (ids : List String) (rows : Rows)
      → Distinct rows
      → length (returned_in ids f rows) ≤ length ids
  length-returned_in-le [] rows d = rw (returned_in-nil rows) (omega arith)
  length-returned_in-le (i ∷ ids) rows d =
      omega (arith, length-returned_in-cons i ids rows d, length-returned_in-le ids rows d)

length-ids_of : (es : List Candidate) → length (ids_of es) ≡ length es
length-ids_of [] = refl
length-ids_of (e ∷ es) = ap suc (length-ids_of es)

pub length-claim_next_emails-le :
    (rows : Rows) (worker : String) (scan : Scan) (n : ℕ)
    → Distinct rows
    → length (claim_next_emails rows worker scan n).1 ≤ n
unfolding claim_next_emails fair_due_emails
length-claim_next_emails-le rows worker scan n d = omega (
  arith,
  length-returned_in-le (claimed_row worker scan.now) (fair_due_email_ids scan n rows) rows d,
  length-ids_of (fair_due_emails scan n rows),
  length-take-le n (ranked scan n rows),
)
