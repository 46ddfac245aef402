-- ===== src/Shared/Facade/Tests.antt =====
-- Runs of the facade.
use bunmail.Prelude.{ℕ, suc, ◌≡◌, refl, true, List, [], ◌∷◌, none, some}
use bunmail.Shared.Window.{WindowOptions, allowed}
use bunmail.Shared.Facade.{WindowBackend, SharedCounter}
use bunmail.Shared.Facade.Outage.{
  Call, takes, peeks, refunds, deletes, marks, run_memory, run_facade, IsDown, run_facade_down,
}

-- A backend that allows everything and counts the calls, and one that counts and fails.
abbrev counting : WindowBackend ℕ
counting = record {
  take = λ b keys o at. (suc b, some (allowed 1 (("ip", 5) ∷ [])));
  peek = λ b key at. (suc b, some none);
  refund = λ b key id at. (suc b, some tt);
  delete_all = λ b keys at. (suc b, some tt);
  mark_once = λ b key at. (suc b, some true);
}

abbrev failing : WindowBackend ℕ
failing = record {
  take = λ b keys o at. (suc b, none);
  peek = λ b key at. (suc b, none);
  refund = λ b key id at. (suc b, none);
  delete_all = λ b keys at. (suc b, none);
  mark_once = λ b key at. (suc b, none);
}

abbrev start : SharedCounter ℕ
start = record { installed = some 0; generation = 3; local = record { entries = []; seq = 0 } }

abbrev options : WindowOptions
options = record { max = 1; window_ms = 1000; weight = 1; refused_weight = 0 }

abbrev failing_is_down : IsDown failing
failing_is_down = record {
  take_fails = λ b keys o at. refl;
  peek_fails = λ b key at. refl;
  delete_all_fails = λ b keys at. refl;
  mark_once_fails = λ b key at. refl;
}

abbrev calls : List (ℕ × Call)
calls =
    (1, takes ("ip" ∷ []) options)
    ∷ (2, takes ("ip" ∷ "user" ∷ []) options)
    ∷ (3, refunds "ip" 1)
    ∷ (4, marks "ip")
    ∷ (5, peeks "ip")
    ∷ (6, deletes ("ip" ∷ []))
    ∷ []

run_facade_down_example : run_facade failing start calls ≡ run_memory start.local calls
run_facade_down_example = run_facade_down failing failing_is_down calls start
