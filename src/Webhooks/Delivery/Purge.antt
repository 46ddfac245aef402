-- ===== src/Webhooks/Delivery/Purge.antt =====
-- The deletion of old deliveries keeps the count of requests.
use bunmail.Prelude.{
  ℕ, suc, ◌≡◌, refl, sym, subst, ◌∙◌, String, List, [], ◌∷◌, Option, none, ltb, str_eq, eq_iff,
  arith, Bool-cases, inl, inr, ◌⊎◌, zero,
}
use bunmail.Dict.{get, Distinct}
use bunmail.Webhooks.Delivery.{Delivery, Deliveries}
use bunmail.Webhooks.Delivery.Counts.{CountsIn, AllCount, after}
use bunmail.Webhooks.Delivery.Log.{DeliveryEvent}
use bunmail.Webhooks.Retention.{finished_before, purge_batch, purge_batches}

-- A purge leaves a row or deletes it.
Left : Option Delivery → Option Delivery → Type 0
Left after before = (after ≡ before) ⊎ (after ≡ none)

Left-none : (after before : Option Delivery) → Left after before → before ≡ none → after ≡ none
unfolding Left
Left-none after before (inl same) e = same ∙ e
Left-none after before (inr gone) e = gone

module _ (older_than : ℕ) where
  get-purge_batch :
      (size : ℕ) (rows : Deliveries) (id : String)
      → Distinct rows
      → Left (get (purge_batch older_than size rows).0 id) (get rows id)
  unfolding purge_batch get Left
  get-purge_batch size [] id d = inl refl
  get-purge_batch zero (e ∷ rows) id d = inl refl
  get-purge_batch (suc size) ((j, r) ∷ rows) id (new, d) =
      elim (Bool-cases (finished_before older_than r)) [
        | inl t ↦ elim (Bool-cases (str_eq j id)) [
          | inl s ↦
              (let e : j ≡ id = ground (arith, eq_iff j id) in
                let absent : get rows id ≡ none = subst (λ k. get rows k ≡ none) e new in
                rw (t, s)
                  (inr (
                    Left-none (get (purge_batch older_than size rows).0 id) (get rows id)
                      (get-purge_batch size rows id d) absent)))
          | inr f ↦ rw (t, f) (get-purge_batch size rows id d)
        ]
        | inr k ↦ elim (Bool-cases (str_eq j id)) [
          | inl s ↦ rw (k, s) (inl refl)
          | inr f ↦ rw (k, f) (get-purge_batch (suc size) rows id d)
        ]
      ]

  purge_batch-Distinct :
      (size : ℕ) (rows : Deliveries) → Distinct rows → Distinct (purge_batch older_than size rows).0
  unfolding purge_batch
  purge_batch-Distinct size [] d = tt
  purge_batch-Distinct zero (e ∷ rows) d = d
  purge_batch-Distinct (suc size) ((j, r) ∷ rows) (new, d) =
      elim (Bool-cases (finished_before older_than r)) [
        | inl t ↦ rw t (purge_batch-Distinct size rows d)
        | inr k ↦ rw k (
          Left-none (get (purge_batch older_than (suc size) rows).0 j) (get rows j)
              (get-purge_batch (suc size) rows j d) new,
          purge_batch-Distinct (suc size) rows d,
        )
      ]

  purge_batch-AllCount :
      (size : ℕ) (rows : Deliveries) (log : List DeliveryEvent)
      → Distinct rows
      → AllCount log rows
      → AllCount log (purge_batch older_than size rows).0
  unfolding Left
  purge_batch-AllCount size rows log d h id = elim (get-purge_batch size rows id d) [
    | inl same ↦ subst (CountsIn log id) (sym same) (h id)
    | inr gone ↦ subst (CountsIn log id) (sym gone) tt
  ]

  pub purge_batches-AllCount :
      (left size : ℕ) (rows : Deliveries) (log : List DeliveryEvent)
      → Distinct rows × AllCount log rows
      → Distinct (purge_batches left older_than size rows).0
        × AllCount log (purge_batches left older_than size rows).0
  unfolding purge_batches
  purge_batches-AllCount zero size rows log h = h
  purge_batches-AllCount (suc left) size rows log (d, h) =
      let batch = purge_batch older_than size rows in
      let kept : Distinct batch.0 × AllCount log batch.0 =
        (purge_batch-Distinct size rows d, purge_batch-AllCount size rows log d h) in
      elim (Bool-cases (ltb batch.1 size)) [
        | inl t ↦ rw t kept
        | inr f ↦ rw f (purge_batches-AllCount left size batch.0 log kept)
      ]
