-- ===== src/Webhooks/Retention/Whole.antt =====
-- A pass of the retention deletes old finished deliveries, and nothing else.
use bunmail.Prelude.{
  ℕ, zero, suc, ◌+◌, ◌*◌, ◌≤◌, ◌<◌, ◌≡◌, refl, sym, ap, ◌∙◌, String, Bool, not, [], ◌∷◌, ltb,
  filter, if◌then◌else◌, arith, Bool-cases, inl, inr,
}
use bunmail.Webhooks.Delivery.{Delivery, Deliveries}
use bunmail.Webhooks.Retention.{
  purge_max_batches, finished_before, purge_batch, purge_batches, purge_old_deliveries,
}

module _ (older_than : ℕ) where
  abbrev is_kept : String × Delivery → Bool
  is_kept e = not (finished_before older_than e.1)

  abbrev pub kept_deliveries : Deliveries → Deliveries
  kept_deliveries rows =
      filter (λ (e : String × Delivery). not (finished_before older_than e.1)) rows

  abbrev pub finished_count : Deliveries → ℕ
  finished_count [] = 0
  finished_count ((id, r) ∷ rows) =
      let rest = finished_count rows in if finished_before older_than r then suc rest else rest

  kept-purge_batch :
      (size : ℕ) (rows : Deliveries)
      → kept_deliveries (purge_batch older_than size rows).0 ≡ kept_deliveries rows
  unfolding purge_batch
  kept-purge_batch size [] = refl
  kept-purge_batch zero (e ∷ rows) = refl
  kept-purge_batch (suc size) ((id, r) ∷ rows) = elim (Bool-cases (finished_before older_than r)) [
    | inl t ↦ rw t (kept-purge_batch size rows)
    | inr f ↦ rw f (rw f (ap (◌∷◌ (id, r)) (kept-purge_batch (suc size) rows)))
  ]

  -- A batch deletes as many rows as it counts, and stops short only when none is left.
  finished_count-purge_batch :
      (size : ℕ) (rows : Deliveries)
      → ((purge_batch older_than size rows).1 ≤ size)
        × (finished_count (purge_batch older_than size rows).0
              + (purge_batch older_than size rows).1
            ≡ finished_count rows)
        × ((purge_batch older_than size rows).1 < size
            → finished_count (purge_batch older_than size rows).0 ≡ 0)
  unfolding purge_batch
  finished_count-purge_batch size [] = (omega arith, omega arith, λ h. refl)
  finished_count-purge_batch zero (e ∷ rows) = (omega arith, omega arith, λ h. absurd (omega arith))
  finished_count-purge_batch (suc size) ((id, r) ∷ rows) =
      elim (Bool-cases (finished_before older_than r)) [
        | inl t ↦
            (let (few, sum, last) = finished_count-purge_batch size rows in
              rw t (omega arith, omega arith, λ h. last (omega arith)))
        | inr f ↦
            (let (few, sum, last) = finished_count-purge_batch (suc size) rows in
              rw f (rw f (few, sum, last)))
      ]

  kept-none : (rows : Deliveries) → finished_count rows ≡ 0 → kept_deliveries rows ≡ rows
  kept-none [] h = refl
  kept-none ((id, r) ∷ rows) h = elim (Bool-cases (finished_before older_than r)) [
    | inl t ↦ absurd (let some_one : suc (finished_count rows) ≡ 0 = rw t at h in omega arith)
    | inr f ↦ rw f (ap (◌∷◌ (id, r)) (kept-none rows (rw f at h)))
  ]

  kept-purge_batches :
      (left size : ℕ) (rows : Deliveries)
      → kept_deliveries (purge_batches left older_than size rows).0 ≡ kept_deliveries rows
  unfolding purge_batches
  kept-purge_batches zero size rows = refl
  kept-purge_batches (suc left) size rows =
      let batch = purge_batch older_than size rows in
      elim (Bool-cases (ltb batch.1 size)) [
        | inl t ↦ rw t (kept-purge_batch size rows)
        | inr f ↦ rw f (kept-purge_batches left size batch.0 ∙ kept-purge_batch size rows)
      ]

  finished_count-purge_batches :
      (left size : ℕ) (rows : Deliveries)
      → finished_count rows ≤ left * size
      → (finished_count (purge_batches left older_than size rows).0 ≡ 0)
        × ((purge_batches left older_than size rows).1 ≡ finished_count rows)
  unfolding purge_batches
  finished_count-purge_batches zero size rows h = (omega arith, omega arith)
  finished_count-purge_batches (suc left) size rows h =
      let batch = purge_batch older_than size rows in
      let (few, sum, last) = finished_count-purge_batch size rows in
      elim (Bool-cases (ltb batch.1 size)) [
        | inl t ↦ (let none_left = last (ground arith) in rw t (none_left, omega arith))
        | inr f ↦
            (let full : batch.1 ≡ size = ground arith in
              let room : finished_count batch.0 ≤ left * size = grind arith in
              let (gone, total) = finished_count-purge_batches left size batch.0 room in
              rw f (gone, omega arith))
      ]

-- A pass of the retention keeps every delivery that is pending or that changed since the cutoff, in
-- order; and where at most a hundred batches are finished before the cutoff, it deletes just those,
-- all of them, and counts them.
pub purge_old_deliveries-kept :
    (rows : Deliveries) (older_than size : ℕ)
    → (kept_deliveries older_than (purge_old_deliveries rows older_than size).0
        ≡ kept_deliveries older_than rows)
      × (finished_count older_than rows ≤ 100 * size
          → purge_old_deliveries rows older_than size
            ≡ (kept_deliveries older_than rows, finished_count older_than rows))
unfolding purge_old_deliveries
purge_old_deliveries-kept rows older_than size =
    let kept = kept-purge_batches older_than purge_max_batches size rows in
    (
      kept,
      λ h.
          let (gone, total) =
            finished_count-purge_batches older_than purge_max_batches size rows h in
          let same =
            sym (kept-none older_than (purge_batches purge_max_batches older_than size rows).0 gone)
            ∙ kept in
          λ i. (same i, total i),
    )
