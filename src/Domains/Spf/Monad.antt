-- ===== src/Domains/Spf/Monad.antt =====
-- src/modules/domains/services/spf-evaluator.ts: the counters of an evaluation, and the `SpfError`s
-- that its steps throw. `stuck` is a model that ran out of fuel; no error handler catches it.
use bunmail.Prelude.{ℕ, ◌+◌, ltb, if◌then◌else◌}
use bunmail.Domains.Spf.Types.{SpfError, perm}

-- `queries` counts the DNS queries made, to place the deadline among them.
pub record Evaluation : Type 0 where
  pub lookups : ℕ
  pub voids : ℕ
  pub queries : ℕ

pub data Outcome {ℓ} (A : Type ℓ) : Type ℓ where
  done : A → Outcome A
  thrown : SpfError → Outcome A
  stuck : Outcome A

abbrev pub M {ℓ} : Type ℓ → Type ℓ
M A = Evaluation → Outcome A × Evaluation

infixl 5 ◌>>=◌ ◌>>◌
unfoldable pub ◌>>=◌ : {A B : Type 0} → M A → (A → M B) → M B
◌>>=◌ m f ev =
    let (r, ev') = m ev in
    elim r [ done a ↦ f a ev' | thrown e ↦ (thrown e, ev') | stuck ↦ (stuck, ev') ]

unfoldable pub ◌>>◌ : {B : Type 0} → M (Unit {0}) → M B → M B
◌>>◌ m k = m >>= λ _. k

abbrev pub return : {A : Type 0} → A → M A
return a ev = (done a, ev)

abbrev pub throw : {A : Type 0} → SpfError → M A
throw e ev = (thrown e, ev)

-- `try { … } catch (error) { if (error instanceof SpfError) return … }`
unfoldable pub catch : {A : Type 0} → M A → (SpfError → A) → M A
catch m handle ev =
    let (r, ev') = m ev in
    elim r [ done a ↦ (done a, ev') | thrown e ↦ (done (handle e), ev') | stuck ↦ (stuck, ev') ]

abbrev pub max_dns_terms : ℕ
max_dns_terms = 10

abbrev pub max_void_lookups : ℕ
max_void_lookups = 2

abbrev pub max_names_per_answer : ℕ
max_names_per_answer = 10

unfoldable pub count_lookup : M (Unit {0})
count_lookup ev =
    let ev' : Evaluation = record ev { lookups = ev.lookups + 1 } in
    if ltb max_dns_terms ev'.lookups then (thrown perm, ev') else (done tt, ev')

unfoldable pub count_void : M (Unit {0})
count_void ev =
    let ev' : Evaluation = record ev { voids = ev.voids + 1 } in
    if ltb max_void_lookups ev'.voids then (thrown perm, ev') else (done tt, ev')
