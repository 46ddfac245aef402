-- ===== src/Shared/Facade.antt =====
-- src/utils/shared-store.ts: `sharedWindowCounter`, which counts in a shared backend and falls back
-- to this process's memory, and the installed backend with its generation.
-- The backend is a parameter: a state and operations on it, each of which may fail (`none`) after
-- it changed the state. The text of a window id, `<tag>:<id>`, is a pair of tag and id here, and
-- the ids of one decision, which share its tag, are the tag and the decision's windows.
pub mod Generation
pub mod Outage
mod Tests
use bunmail.Prelude.{ℕ, suc, ◌+◌, String, Bool, List, Option, none, some, ◌==◌, if◌then◌else◌}
use bunmail.Dict.{Dict}
use bunmail.Shared.Window
use bunmail.Shared.Window.{MemoryWindowCounter, WindowOptions, WindowDecision, WindowState}

-- Which store counted a request: `l`, or `s` with the backend's generation.
pub data StoreTag : Type 0 where
  local_tag : StoreTag
  shared_tag : ℕ → StoreTag

pub record WindowBackend (B : Type 0) : Type 0 where
  pub take : B → List String → WindowOptions → ℕ → B × Option WindowDecision
  pub peek : B → String → ℕ → B × Option (Option WindowState)
  pub refund : B → String → ℕ → ℕ → B × Option (Unit {0})
  pub delete_all : B → List String → ℕ → B × Option (Unit {0})
  pub mark_once : B → String → ℕ → B × Option Bool

-- `backend` and `backendGeneration`, and one namespace's counter in memory.
pub record SharedCounter (B : Type 0) : Type 0 where
  pub installed : Option B
  pub generation : ℕ
  pub local : MemoryWindowCounter

module _ {B : Type 0} where
  pub use_shared_backend : SharedCounter B → Option B → SharedCounter B
  use_shared_backend s next = record s { installed = next; generation = suc s.generation }

  pub close_shared_store : SharedCounter B → SharedCounter B
  close_shared_store s = record s { installed = none; generation = suc s.generation }

module _ {B : Type 0} (ops : WindowBackend B) where
  unfoldable pub take_local :
      SharedCounter B
      → List String
      → WindowOptions
      → ℕ
      → SharedCounter B × StoreTag × WindowDecision
  take_local s keys o at =
      let (c, decision) = Window.take s.local keys o at in
      (record s { local = c }, local_tag, decision)

  unfoldable pub take :
      SharedCounter B
      → List String
      → WindowOptions
      → ℕ
      → SharedCounter B × StoreTag × WindowDecision
  unfolding take_local
  take s keys o at = elim s.installed [
    | none ↦ take_local s keys o at
    | some b ↦
        let (b', reply) = ops.take b keys o at in
        let s' : SharedCounter B = record s { installed = some b' } in
        elim reply [
          | some decision ↦ (s', shared_tag s.generation, decision)
          | none ↦ take_local s' keys o at
        ]
  ]

  unfoldable pub refund : SharedCounter B → String → StoreTag × ℕ → ℕ → SharedCounter B
  refund s key (local_tag, id) at = record s { local = Window.refund s.local key id at }
  refund s key (shared_tag g, id) at = elim s.installed [
    | none ↦ s
    | some b ↦
        if g == s.generation then record s { installed = some (ops.refund b key id at).0 } else s
  ]

  -- `run`: an operation of the backend's counter, or the same one in memory.
  pub run_shared :
      {T : Type 0}
      → (B → B × Option T)
      → (MemoryWindowCounter → MemoryWindowCounter × T)
      → SharedCounter B
      → SharedCounter B × T
  run_shared {T} op in_memory s =
      let (c, result) = in_memory s.local in
      let fallback : SharedCounter B → SharedCounter B × T =
        λ t. let t' : SharedCounter B = record t { local = c } in (t', result) in
      elim s.installed [
        | none ↦ fallback s
        | some b ↦
            let (b', reply) = op b in
            let s' : SharedCounter B = record s { installed = some b' } in
            elim reply [ some r ↦ (s', r) | none ↦ fallback s' ]
      ]

  pub peek : SharedCounter B → String → ℕ → SharedCounter B × Option WindowState
  unfolding run_shared
  peek s key at = run_shared (λ b. ops.peek b key at) (λ c. Window.peek c key at) s

  pub delete_all : SharedCounter B → List String → ℕ → SharedCounter B
  unfolding run_shared
  delete_all s keys at =
      (run_shared (λ b. ops.delete_all b keys at) (λ c. (Window.delete_all c keys, tt)) s).0

  pub mark_once : SharedCounter B → String → ℕ → SharedCounter B × Bool
  unfolding run_shared
  mark_once s key at = run_shared (λ b. ops.mark_once b key at) (λ c. Window.mark_once c key at) s
