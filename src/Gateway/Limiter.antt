-- ===== src/Gateway/Limiter.antt =====
-- services/api-gateway/internal/ratelimit/redis_limiter.go and internal/middleware/ratelimit.go. The
-- Lua script works on the sorted set of one key: its members are a time and a number that the script
-- draws, and its scores are the times. The set's expiry is left out, since it comes when all members
-- are outside the window.
pub mod Window
mod Examples
use goshield.Prelude.{
  ℕ, ◌+◌, ◌-◌, ◌*◌, Bool, true, false, ◌&&◌, Option, none, some, List, [], ◌∷◌, ◌++◌, ltb, eqb,
  length, any, select, if◌then◌else◌,
}
use goshield.Go.Text.{codes_eq}

-- A member of the set.
pub record Entry : Type 0 where
  pub at : ℕ
  pub draw : ℕ

-- The settings, times in milliseconds.
pub record Config : Type 0 where
  pub requests_per_minute : ℕ
  pub window : ℕ

-- `New` puts a minute and 60 for what is not set.
pub new_limiter : Config → Config
new_limiter cfg = record {
  requests_per_minute = if eqb cfg.requests_per_minute 0 then 60 else cfg.requests_per_minute;
  window = if eqb cfg.window 0 then 60000 else cfg.window;
}

pub record Outcome : Type 0 where
  pub allowed : Bool
  pub remaining : ℕ

-- What `ZREMRANGEBYSCORE key 0 (now - window)` leaves.
abbrev pub is_live : ℕ → ℕ → Entry → Bool
is_live window now e = ltb now (e.at + window)

abbrev pub same_member : Entry → Entry → Bool
same_member e d = eqb d.at e.at && eqb d.draw e.draw

-- `ZADD`: a member that is there already is not added again.
pub add : Entry → List Entry → List Entry
add e es = if any (same_member e) es then es else es ++ e ∷ []

-- The Lua script.
pub script : Config → Entry → List Entry → Outcome × List Entry
unfolding add
script cfg e es =
    let live = select (is_live cfg.window e.at) es in
    if ltb (length live) cfg.requests_per_minute
    then (
      record { allowed = true; remaining = cfg.requests_per_minute - length live - 1 },
      add e live,
    )
    else (record { allowed = false; remaining = 0 }, live)

-- `Allow`, with the error as the second part; `reached` says whether Redis answers.
pub allow : Config → Bool → Entry → List Entry → (Outcome × Bool) × List Entry
unfolding script
allow cfg reached e es =
    if reached
    then (((script cfg e es).0, false), (script cfg e es).1)
    else ((record { allowed = true; remaining = cfg.requests_per_minute }, true), es)

-- What the middleware does with a request: it passes it on, with the remaining count as a header or
-- without headers, or it answers 429.
pub data Verdict : Type 0 where
  passed : Option ℕ → Verdict
  too_many_requests : Verdict

judge : Outcome × Bool → Verdict
judge (o, true) = passed none
judge (o, false) = if o.allowed then passed (some o.remaining) else too_many_requests

pub rate_limit : Config → List (List ℕ) → Bool → List ℕ → Entry → List Entry → Verdict × List Entry
unfolding allow judge
rate_limit cfg skip_paths reached path e es =
    if any (codes_eq path) skip_paths
    then (passed none, es)
    else (judge (allow cfg reached e es).0, (allow cfg reached e es).1)

-- The requests of one key, one behind the other: the admitted ones, and the set.
pub run : Config → List Entry → List Entry × List Entry → List Entry × List Entry
unfolding script
run cfg [] s = s
run cfg (e ∷ es) (admitted, stored) =
    let done = script cfg e stored in
    run cfg es ((if done.0.allowed then admitted ++ e ∷ [] else admitted), done.1)
