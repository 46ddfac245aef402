-- ===== src/Emails/Queue/Fair.antt =====
-- Which candidates a claim takes: fairly across keys, and only rows that may be claimed.
use bunmail.Prelude.{
  ℕ, ◌≤◌, ◌≡◌, refl, String, true, false, List, [], ◌∷◌, eq_refl, drop, All, sort_by-All,
  take-drop-All, All-imp, Ascending, sort_by-Ascending, take-drop-Ascending, arith,
}
use bunmail.Emails.Queue.{Rows, chosen}
use bunmail.Emails.Queue.Pick.{
  Scan, Candidate, in_fair_order, due, key_rank, ranked, fair_due_emails, ids_of,
}

ranked-Ascending :
    (scan : Scan) (n : ℕ) (rows : Rows)
    → Ascending (key_rank scan (due scan n rows)) (ranked scan n rows)
unfolding ranked
ranked-Ascending scan n rows =
    let candidates = due scan n rows in
    sort_by-Ascending (key_rank scan candidates) (in_fair_order scan candidates) (λ a b h. up a b h)
      (λ a b h. down a b h) candidates
  where
    up :
        (a b : Candidate)
        → in_fair_order scan (due scan n rows) a b ≡ true
        → key_rank scan (due scan n rows) a ≤ key_rank scan (due scan n rows) b
    up a b h = ground arith

    down :
        (a b : Candidate)
        → in_fair_order scan (due scan n rows) a b ≡ false
        → key_rank scan (due scan n rows) b ≤ key_rank scan (due scan n rows) a
    down a b h = ground arith

chosen_head : (id : String) (ids : List String) → chosen (id ∷ ids) id ≡ true
chosen_head id ids = rw (eq_refl id) refl

chosen_tail :
    (i id : String) (ids : List String) → chosen ids id ≡ true → chosen (i ∷ ids) id ≡ true
chosen_tail i id ids h = ground arith

-- A member's id is among the ids.
All-chosen : (es : List Candidate) → All (λ e. chosen (ids_of es) e.0 ≡ true) es
All-chosen [] = tt
All-chosen (e ∷ es) = (
  chosen_head e.0 (ids_of es),
  All-imp (λ o. chosen (ids_of es) o.0 ≡ true) (λ o. chosen (ids_of (e ∷ es)) o.0 ≡ true) es
      (All-chosen es) (λ o h. chosen_tail e.0 o.0 (ids_of es) h),
)

-- A claim shares its batch fairly: an email that is a candidate and is not taken has a rank within
-- its API key that is at least the rank of every email that is taken, so a key's second due email
-- goes out only when the first of each other key does.
pub fair_due_emails-ranks :
    (scan : Scan) (n : ℕ) (rows : Rows)
    → All
        (λ e.
          chosen (ids_of (fair_due_emails scan n rows)) e.0 ≡ false
          → All
              (λ o. key_rank scan (due scan n rows) o ≤ key_rank scan (due scan n rows) e)
              (fair_due_emails scan n rows))
        (due scan n rows)
unfolding fair_due_emails ranked
fair_due_emails-ranks scan n rows =
    let taken = fair_due_emails scan n rows in
    let sorted = ranked scan n rows in
    let rank = key_rank scan (due scan n rows) in
    let Below =
      λ (e : Candidate). chosen (ids_of taken) e.0 ≡ false → All (λ o. rank o ≤ rank e) taken in
    sort_by-All Below (in_fair_order scan (due scan n rows)) (due scan n rows) (
      take-drop-All Below n sorted
        (All-imp (λ e. chosen (ids_of taken) e.0 ≡ true) Below taken (All-chosen taken)
          (λ e h k. absurd (ground arith)))
        (All-imp (λ e. All (λ o. rank o ≤ rank e) taken) Below (drop n sorted)
          (take-drop-Ascending rank n sorted (ranked-Ascending scan n rows)) (λ e h k. h)))
