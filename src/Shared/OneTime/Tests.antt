-- ===== src/Shared/OneTime/Tests.antt =====
-- Runs of the one-time store.
use bunmail.Prelude.{ℕ, ◌≡◌, refl, String, List, [], ◌∷◌, arith}
use bunmail.Dict.{get}
use bunmail.Shared.OneTime.{MemoryOneTimeStore, OneTimeEntry, taken, put, claim, take, store, held}
use bunmail.Shared.OneTime.Laws.{
  Call, puts, takes, claims, run, IsBounded, take-put, take_wrong_guard, run-IsBounded,
}
use bunmail.Shared.OneTime.Claims.{Attempt, wins, claim_once}

abbrev one_entry : MemoryOneTimeStore
one_entry = record {
  entries = ("token", record { guard = "browser"; value = "user"; expires_at = 50 }) ∷ [];
  max_entries = 2;
}

abbrev login : OneTimeEntry
login = record { guard = "tab"; value = "state" }

take-put_example : (take (put one_entry "sso" login 10 5) "sso" "tab" 14).1 ≡ taken "state"
take-put_example = take-put one_entry "sso" login 10 5 14 (omega arith)

abbrev burst : List (ℕ × Call)
burst =
    (1, puts "a" login 10) ∷ (2, puts "b" login 10) ∷ (3, claims "c" 10) ∷ (4, takes "a" "tab") ∷ []

run-IsBounded_example : IsBounded (run one_entry burst)
run-IsBounded_example = run-IsBounded one_entry burst (omega arith, omega arith)

abbrev attempts : List Attempt
attempts =
    record { key = "code"; ttl_ms = 9; at = 6 } ∷ record { key = "other"; ttl_ms = 9; at = 8 } ∷ []

claim_once_example : wins (claim one_entry "code" 30 5).0 "code" attempts ≡ 0
unfolding claim held store get
claim_once_example =
    claim_once one_entry "code" 30 5 attempts (refl, tt) refl (omega arith, omega arith)

take_wrong_guard_example :
    ((take one_entry "token" "thief" 9).0 ≡ one_entry)
    × ((v : String) × ((take one_entry "token" "browser" 9).1 ≡ taken v))
unfolding take get
take_wrong_guard_example = take_wrong_guard one_entry "token" "thief" "browser" 9 refl
