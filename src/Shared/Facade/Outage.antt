-- ===== src/Shared/Facade/Outage.antt =====
-- The facade while the shared backend is away.
use bunmail.Prelude.{
  ℕ, ◌≡◌, ap, refl, String, Bool, List, [], ◌∷◌, Option, none, arith, Option-cases, inl, inr,
}
use bunmail.Shared.Window
use bunmail.Shared.Window.{MemoryWindowCounter, WindowOptions, WindowDecision, WindowState}
use bunmail.Shared.Facade
use bunmail.Shared.Facade.{WindowBackend, SharedCounter, local_tag, take_local, run_shared}

pub data Call : Type 0 where
  takes : List String → WindowOptions → Call
  peeks : String → Call
  refunds : String → ℕ → Call
  deletes : List String → Call
  marks : String → Call

pub data Answer : Type 0 where
  decided : WindowDecision → Answer
  seen : Option WindowState → Answer
  marked : Bool → Answer
  acknowledged : Answer

-- One call on the counter in memory.
pub step_memory : MemoryWindowCounter → ℕ × Call → MemoryWindowCounter × Answer
step_memory c (at, takes keys o) = let (c', d) = Window.take c keys o at in (c', decided d)
step_memory c (at, peeks key) = let (c', w) = Window.peek c key at in (c', seen w)
step_memory c (at, refunds key id) = (Window.refund c key id at, acknowledged)
step_memory c (at, deletes keys) = (Window.delete_all c keys, acknowledged)
step_memory c (at, marks key) = let (c', m) = Window.mark_once c key at in (c', marked m)

pub run_memory : MemoryWindowCounter → List (ℕ × Call) → List Answer
unfolding step_memory
run_memory c [] = []
run_memory c (call ∷ calls) = let (c', answer) = step_memory c call in answer ∷ run_memory c' calls

module _ {B : Type 0} (ops : WindowBackend B) where
  -- The same call on the facade; a refund is given a ticket of the memory's.
  pub step_facade : SharedCounter B → ℕ × Call → SharedCounter B × Answer
  step_facade s (at, takes keys o) =
      let (s', tag, d) = Facade.take ops s keys o at in (s', decided d)
  step_facade s (at, peeks key) = let (s', w) = Facade.peek ops s key at in (s', seen w)
  step_facade s (at, refunds key id) = (Facade.refund ops s key (local_tag, id) at, acknowledged)
  step_facade s (at, deletes keys) = (Facade.delete_all ops s keys at, acknowledged)
  step_facade s (at, marks key) = let (s', m) = Facade.mark_once ops s key at in (s', marked m)

  pub run_facade : SharedCounter B → List (ℕ × Call) → List Answer
  unfolding step_facade
  run_facade s [] = []
  run_facade s (call ∷ calls) =
      let (s', answer) = step_facade s call in answer ∷ run_facade s' calls

  -- Every call of the backend fails, whatever it changed.
  pub record IsDown : Type 0 where
    pub take_fails :
        (b : B) (keys : List String) (o : WindowOptions) (at : ℕ) → (ops.take b keys o at).1 ≡ none
    pub peek_fails : (b : B) (key : String) (at : ℕ) → (ops.peek b key at).1 ≡ none
    pub delete_all_fails :
        (b : B) (keys : List String) (at : ℕ) → (ops.delete_all b keys at).1 ≡ none
    pub mark_once_fails : (b : B) (key : String) (at : ℕ) → (ops.mark_once b key at).1 ≡ none

  module _ (down : IsDown) where
    run_shared_down :
        {T : Type 0} (op : B → B × Option T)
        (in_memory : MemoryWindowCounter → MemoryWindowCounter × T) (s : SharedCounter B)
        → ((b : B) → (op b).1 ≡ none)
        → let (s', r) = run_shared ops op in_memory s in (s'.local, r) ≡ in_memory s.local
    unfolding run_shared
    run_shared_down op in_memory s fails = elim (Option-cases s.installed) [
      | inl away ↦ ground arith
      | inr (b, here) ↦ ground (arith, fails b)
    ]

    step_down :
        (s : SharedCounter B) (call : ℕ × Call)
        → let (s', answer) = step_facade s call in (s'.local, answer) ≡ step_memory s.local call
    unfolding step_facade step_memory Facade.take take_local Facade.refund Facade.peek
        Facade.delete_all Facade.mark_once
    step_down s (at, takes keys o) = elim (Option-cases s.installed) [
      | inl away ↦ ground arith
      | inr (b, here) ↦ ground (arith, down.take_fails b keys o at)
    ]
    step_down s (at, peeks key) =
        ap (λ p. (p.0, seen p.1))
          (run_shared_down (λ b. ops.peek b key at) (λ c. Window.peek c key at) s
            (λ b. down.peek_fails b key at))
    step_down s (at, refunds key id) = refl
    step_down s (at, deletes keys) =
        ap (λ p. (p.0, acknowledged))
          (run_shared_down (λ b. ops.delete_all b keys at) (λ c. (Window.delete_all c keys, tt)) s
            (λ b. down.delete_all_fails b keys at))
    step_down s (at, marks key) =
        ap (λ p. (p.0, marked p.1))
          (run_shared_down (λ b. ops.mark_once b key at) (λ c. Window.mark_once c key at) s
            (λ b. down.mark_once_fails b key at))

    -- An outage keeps the limits: while every call of the backend fails, or none is installed, no
    -- sequence of calls tells the facade from the counter in this process's memory.
    pub run_facade_down :
        (calls : List (ℕ × Call)) (s : SharedCounter B)
        → run_facade s calls ≡ run_memory s.local calls
    unfolding run_facade run_memory
    run_facade_down [] s = refl
    run_facade_down (call ∷ calls) s =
        let same = step_down s call in
        ground (arith, same, run_facade_down calls (step_facade s call).0)
