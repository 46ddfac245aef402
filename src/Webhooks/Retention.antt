-- ===== src/Webhooks/Retention.antt =====
-- src/modules/webhooks/services/webhook-delivery-retention.service.ts: the deletion of old finished
-- deliveries, in batches. Which rows a batch takes first is the order of the table.
pub mod Whole
use bunmail.Prelude.{
  ℕ, zero, suc, ◌+◌, ◌*◌, ◌≤◌, ◌<◌, ◌≡◌, refl, String, Bool, true, false, not, ◌&&◌, List, [], ◌∷◌,
  ltb, if◌then◌else◌, arith, Bool-cases, inl, inr,
}
use bunmail.Webhooks.Delivery.{Delivery, Deliveries, is_pending}

abbrev pub purge_max_batches : ℕ
purge_max_batches = 100

abbrev pub purge_batch_size : ℕ
purge_batch_size = 5000

-- `finishedBefore`
abbrev pub finished_before : ℕ → Delivery → Bool
finished_before older_than r = not (is_pending r.status) && ltb r.updated_at older_than

-- One batch: the first `size` rows that are finished go.
unfoldable pub purge_batch : ℕ → ℕ → Deliveries → Deliveries × ℕ
purge_batch older_than size [] = ([], 0)
purge_batch older_than zero (e ∷ rows) = (e ∷ rows, 0)
purge_batch older_than (suc size) ((id, r) ∷ rows) =
    let gone = purge_batch older_than size rows in
    let stays = purge_batch older_than (suc size) rows in
    if finished_before older_than r then (gone.0, suc gone.1) else ((id, r) ∷ stays.0, stays.1)

-- `left` batches more.
unfoldable pub purge_batches : ℕ → ℕ → ℕ → Deliveries → Deliveries × ℕ
unfolding purge_batch
purge_batches zero older_than size rows = (rows, 0)
purge_batches (suc left) older_than size rows =
    let batch = purge_batch older_than size rows in
    let rest = purge_batches left older_than size batch.0 in
    if ltb batch.1 size then batch else (rest.0, batch.1 + rest.1)

unfoldable pub purge_old_deliveries : Deliveries → ℕ → ℕ → Deliveries × ℕ
unfolding purge_batches
purge_old_deliveries rows older_than size = purge_batches purge_max_batches older_than size rows
