-- ===== src/Submission/Auth/Flights.antt =====
-- Attempts that wait for their lookup, and the steps of attempts that overlap.
use bunmail.Prelude.{
  ℕ, zero, suc, ◌+◌, ◌≤◌, ◌<◌, ◌≡◌, subst, All, get_elem?, Bool, inl, inr, refl, String, true,
  false, List, [], ◌∷◌, Option, none, some, if◌then◌else◌, arith, str_eq, Bool-cases,
}
use bunmail.Dict.{get}
use bunmail.Shared.Window.{MemoryWindow, MemoryWindowCounter}
use bunmail.Shared.Window.View.{alive}
use bunmail.Shared.Facade.{local_tag}
use bunmail.Submission.Auth.{AuthAttempt}

-- An attempt that waits for the lookup of its candidate.
abbrev pub Flight : Type 0
Flight = Option AuthAttempt × String

-- The attempts of this process, in the order of their steps: one begins, from an address with a
-- candidate, or the lookup of an attempt ends, the `i`th of those that wait.
pub data AuthEvent : Type 0 where
  begins : String → String → ℕ → AuthEvent
  ends : ℕ → ℕ → AuthEvent

abbrev pub time_of : AuthEvent → ℕ
time_of (begins ip candidate at) = at
time_of (ends i at) = at

-- The steps stand in the order of their times, from `start` on and before `end`.
abbrev pub InOrder : ℕ → ℕ → List AuthEvent → Type 0
InOrder start end [] = Unit
InOrder start end (a ∷ more) =
    (start ≤ time_of a) × (time_of a < end) × InOrder (time_of a) end more

-- The counter of this process, and the attempts that wait.
abbrev pub State : Type 0
State = MemoryWindowCounter × List Flight

abbrev pub remove_at : List Flight → ℕ → List Flight
remove_at [] i = []
remove_at (f ∷ fs) zero = fs
remove_at (f ∷ fs) (suc i) = f ∷ remove_at fs i

abbrev pub on_key : String → Flight → Bool
on_key key (none, candidate) = false
on_key key (some attempt, candidate) = str_eq attempt.bucket key

-- How many attempts of the bucket `key` wait.
unfoldable pub waiting : String → List Flight → ℕ
waiting key [] = 0
waiting key (f ∷ fs) = let rest = waiting key fs in if on_key key f then suc rest else rest

-- The ticket that an attempt of `key` has of the window `id`.
abbrev pub HasTicket : String → ℕ → Flight → Type 0
HasTicket key id (none, candidate) = Unit
HasTicket key id (some attempt, candidate) =
    str_eq attempt.bucket key ≡ true
    → (attempt.tag ≡ local_tag) × (get attempt.windows attempt.bucket ≡ some id)

pub HasTicket-none :
    (fs : List Flight) (key : String) (id : ℕ) → waiting key fs ≡ 0 → All (HasTicket key id) fs
unfolding waiting
HasTicket-none [] key id h = tt
HasTicket-none ((none, candidate) ∷ fs) key id h = (tt, HasTicket-none fs key id h)
HasTicket-none ((some attempt, candidate) ∷ fs) key id h =
    elim (Bool-cases (str_eq attempt.bucket key)) [
      | inl same ↦ absurd (ground (arith, same))
      | inr other ↦
          (λ same. absurd (ground (arith, same, other)), HasTicket-none fs key id (rw other at h))
    ]

pub alive-later :
    (o : Option MemoryWindow) (t at : ℕ) → t ≤ at → alive t o ≡ none → alive at o ≡ none
alive-later none t at h gone = refl
alive-later (some e) t at h gone = ground arith

pub alive-some : (at : ℕ) (e : MemoryWindow) → at < e.expires_at → alive at (some e) ≡ some e
alive-some at e h = ground arith

pub remove_at-All :
    (P : Flight → Type 0) (fs : List Flight) (i : ℕ) → All P fs → All P (remove_at fs i)
remove_at-All P [] i h = tt
remove_at-All P (f ∷ fs) zero (here, h) = h
remove_at-All P (f ∷ fs) (suc i) (here, h) = (here, remove_at-All P fs i h)

pub All-get :
    (P : Flight → Type 0) (fs : List Flight) (i : ℕ) (f : Flight)
    → get_elem? fs i ≡ some f
    → All P fs
    → P f
All-get P [] i f e h = cc
All-get P (g ∷ fs) zero f e (here, h) = let same : g ≡ f = cc in subst P same here
All-get P (g ∷ fs) (suc i) f e (here, h) = All-get P fs i f e h

pub waiting-remove_at :
    (key : String) (fs : List Flight) (i : ℕ) (f : Flight)
    → get_elem? fs i ≡ some f
    → waiting key fs ≡ (if on_key key f then 1 else 0) + waiting key (remove_at fs i)
unfolding waiting
waiting-remove_at key [] i f e = cc
waiting-remove_at key (g ∷ fs) zero f e =
    let same : g ≡ f = cc in
    rw same (elim (Bool-cases (on_key key f)) [
      | inl on ↦ rw on (omega arith)
      | inr off ↦ rw off (omega arith)
    ])
waiting-remove_at key (g ∷ fs) (suc i) f e =
    let ih = waiting-remove_at key fs i f e in
    elim (Bool-cases (on_key key g)) [ inl on ↦ rw on (omega (arith, ih)) | inr off ↦ rw off ih ]
