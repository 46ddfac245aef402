-- ===== src/Webhooks/Delivery/Pick.antt =====
-- src/modules/webhooks/services/webhook-delivery-claim.service.ts: which deliveries a claim takes.
use bunmail.Prelude.{
  ℕ, suc, String, Bool, not, ◌&&◌, ◌||◌, List, [], ◌∷◌, ◌++◌, leb, ltb, ◌==◌, str_eq, filter, map,
  length, take, sort_by,
}
use bunmail.Webhooks.Delivery.{
  Delivery, Deliveries, Hook, Hooks, DueDelivery, is_pending, claim_rows, claim_due,
}

pub record DeliveryScan : Type 0 where
  pub now : ℕ
  pub locked : String → Bool
  pub id_before : String → String → Bool

-- A due delivery with the key that owns its webhook.
pub record DueCandidate : Type 0 where
  pub key : String
  pub id : String
  pub next_attempt_at : ℕ

abbrev pub is_due_for : DeliveryScan → String → String × Delivery → Bool
is_due_for scan hook_id e =
    str_eq e.1.webhook_id hook_id
    && (is_pending e.1.status && (leb e.1.next_attempt_at scan.now && not (scan.locked e.0)))

unfoldable pub hook_due : DeliveryScan → ℕ → Deliveries → String → Hook → List DueCandidate
hook_due scan n rows hook_id h =
    map
      (λ (e : String × Delivery). record {
        key = h.api_key_id;
        id = e.0;
        next_attempt_at = e.1.next_attempt_at;
      })
      (take n (
        sort_by (λ (a b : String × Delivery). leb a.1.next_attempt_at b.1.next_attempt_at)
          (filter (is_due_for scan hook_id) rows)))

unfoldable pub all_due : DeliveryScan → ℕ → Deliveries → Hooks → List DueCandidate
unfolding hook_due
all_due scan n rows [] = []
all_due scan n rows ((hook_id, h) ∷ hooks) =
    hook_due scan n rows hook_id h ++ all_due scan n rows hooks

abbrev pub comes_before : DeliveryScan → DueCandidate → DueCandidate → Bool
comes_before scan a b =
    ltb a.next_attempt_at b.next_attempt_at
    || (a.next_attempt_at == b.next_attempt_at && scan.id_before a.id b.id)

unfoldable pub rank_in_key : DeliveryScan → List DueCandidate → DueCandidate → ℕ
rank_in_key scan cs c = suc (length (filter (λ o. str_eq o.key c.key && comes_before scan o c) cs))

abbrev pub by_rank : DeliveryScan → List DueCandidate → DueCandidate → DueCandidate → Bool
by_rank scan cs a b =
    ltb (rank_in_key scan cs a) (rank_in_key scan cs b)
    || (rank_in_key scan cs a == rank_in_key scan cs b && not (comes_before scan b a))

unfoldable pub fair_due_delivery_ids : DeliveryScan → ℕ → Deliveries → Hooks → List String
unfolding all_due
fair_due_delivery_ids scan n rows hooks =
    let cs = all_due scan n rows hooks in
    map (λ (c : DueCandidate). c.id) (take n (sort_by (by_rank scan cs) cs))

unfoldable pub claim_due_deliveries :
    Deliveries → Hooks → DeliveryScan → ℕ → Deliveries × List DueDelivery
unfolding claim_rows claim_due
claim_due_deliveries rows hooks scan n =
    let ids = fair_due_delivery_ids scan n rows hooks in
    (claim_rows hooks scan.now ids rows, claim_due hooks scan.now ids rows)
