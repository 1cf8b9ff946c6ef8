-- ===== src/Gateway/Limiter/Examples.antt =====
-- The theorems on services/api-gateway/internal/ratelimit at a limit of two requests.
use goshield.Prelude.{ℕ, ◌≤◌, refl, List, [], ◌∷◌, length, select, arith}
use goshield.Gateway.Limiter.{Config, Entry, is_live, script, add, run}
use goshield.Gateway.Limiter.Window.{run-bounded}

abbrev two_a_minute : Config
two_a_minute = record { requests_per_minute = 2; window = 60000 }

abbrev at_time : ℕ → ℕ → Entry
at_time t n = record { at = t; draw = n }

abbrev requests : List Entry
requests = at_time 1000 7 ∷ at_time 1000 8 ∷ at_time 2000 9 ∷ at_time 61500 3 ∷ []

run-bounded_example :
    length (select (is_live 60000 61500) (run two_a_minute requests ([], [])).0) ≤ 2
unfolding script add
run-bounded_example =
    run-bounded two_a_minute requests 0 61500
      (omega arith, refl, (omega arith, refl, (omega arith, refl, (omega arith, refl, tt))))
      (omega arith)
