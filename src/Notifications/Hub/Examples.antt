-- ===== src/Notifications/Hub/Examples.antt =====
-- The theorems on services/notification-service/internal/hub at two clients.
use goshield.Prelude.{
  ap, arith, ℕ, ◌≡◌, refl, String, true, false, List, [], ◌∷◌, ◌==◌, if◌then◌else◌,
}
use goshield.Notifications.Hub.{remove, Client, Hub, lookup, company_of, register, broadcast}
use goshield.Notifications.Hub.Members.{
  serve, Signal, registers, unregisters, broadcasts, receives, serve_all, IsSound,
}
use goshield.Notifications.Hub.Invariant.{serve_all-IsSound}
use goshield.Notifications.Hub.Isolation.{broadcast-elsewhere}

abbrev owner : String → String
owner i = if i == "x" then "acme" else "umbrella"

abbrev x : Client
x = record { id = "x"; company_id = "acme" }

abbrev y : Client
y = record { id = "y"; company_id = "umbrella" }

abbrev fresh : Hub ℕ
fresh = record {
  clients = [];
  channels = λ i. record { waiting = []; is_open = true };
  panicked = false;
}

abbrev signals : List (Signal ℕ)
signals =
    registers x
    ∷ registers y
    ∷ broadcasts "acme" 5
    ∷ receives "x"
    ∷ unregisters x
    ∷ unregisters x
    ∷ []

serve_all-IsSound_example : IsSound owner (serve_all signals fresh)
unfolding serve register
serve_all-IsSound_example =
    serve_all-IsSound owner signals fresh
      ((refl, refl), ((refl, refl), (tt, (tt, (refl, (refl, tt)))))) (refl, tt)

broadcast-elsewhere_example :
    (broadcast "acme" 5 (register x fresh)).channels "y" ≡ (register x fresh).channels "y"
unfolding register company_of lookup remove
broadcast-elsewhere_example =
    broadcast-elsewhere owner "acme" "y" 5 (register x fresh) (refl, (((refl, refl, refl), tt), tt))
      (λ e. ground (arith, ap (λ s. s == "acme") e))
