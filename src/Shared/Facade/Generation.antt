-- ===== src/Shared/Facade/Generation.antt =====
-- Tickets and the backends that they came from.
use bunmail.Prelude.{ℕ, ◌≡◌, String, List, Option, arith}
use bunmail.Shared.Window.{WindowOptions}
use bunmail.Shared.Facade.{
  shared_tag, WindowBackend, SharedCounter, use_shared_backend, take_local, take, refund,
}

module _ {B : Type 0} (ops : WindowBackend B) where
  -- A ticket does not outlive its backend: what a shared backend counted is not taken back from
  -- any backend that is installed after it, nor from memory.
  pub refund-use_shared_backend :
      (s : SharedCounter B) (keys : List String) (o : WindowOptions) (key : String)
      (id at later g : ℕ) (next : Option B)
      → (take ops s keys o at).1 ≡ shared_tag g
      → let s' = use_shared_backend (take ops s keys o at).0 next in
        refund ops s' key ((take ops s keys o at).1, id) later ≡ s'
  unfolding take take_local refund use_shared_backend
  refund-use_shared_backend s keys o key id at later g next h = ground arith
