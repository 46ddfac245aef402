-- ===== src/Shared.antt =====
-- src/utils: the stores that several parts of the server share, in their in-memory form.
pub mod Window
pub mod OneTime
pub mod Slots
pub mod Tokens
pub mod Facade
pub mod SlotFacade
pub mod Fallback
