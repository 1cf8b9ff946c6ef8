-- ===== src/Events/Consumer.antt =====
-- pkg/events/kafka.go: `Consume`, the loop that fetches, handles with retries, and commits. The
-- pauses between attempts are not modelled. The loop ends when its list of fetches does, which
-- stands for the cancelled context.
pub mod Retries
use goshield.Prelude.{
  ℕ, zero, suc, Bool, true, false, List, [], ◌∷◌, ◌++◌, Option, none, some, if◌then◌else◌,
}
use goshield.Go.Errors.{Result, ok, err}
use goshield.Go.Float.{Float64}
use goshield.Go.World.{Exec}
use goshield.Events.Payload.{Event}

-- What `FetchMessage` gives: an error, or a message at an offset. `none` is a value that is no
-- event; the last field says whether `CommitMessages` succeeds.
pub data Fetch (F : Float64) : Type 0 where
  failed : Fetch F
  message : ℕ → Option (Event F) → Bool → Fetch F

abbrev pub max_retries : ℕ
max_retries = 3

-- The state of the loop: what the handler works on, and the offsets committed.
pub record Loop (W : Type 0) : Type 0 where
  pub world : W
  pub committed : List ℕ

module _ {W : Type 0} where
  -- `for attempt := 1; attempt <= maxRetries; attempt++`, with `processErr` as the second argument.
  pub attempts : Exec W (Unit {0}) → ℕ → Result (Unit {0}) → Exec W (Unit {0})
  attempts handler zero process_err w = (process_err, w)
  attempts handler (suc left) process_err w = elim (handler w).0 [
    | ok _ ↦ (ok tt, (handler w).1)
    | err e ↦ attempts handler left (err e) (handler w).1
  ]

  -- An event is committed also if its handler failed for good.
  commit : ℕ → Bool → Loop W → Loop W
  commit offset succeeds l =
      if succeeds then record l { committed = l.committed ++ offset ∷ [] } else l

  pub handle_fetch : {F : Float64} → (Event F → Exec W (Unit {0})) → Fetch F → Loop W → Loop W
  unfolding commit
  handle_fetch handler failed l = l
  handle_fetch handler (message offset none commits) l = commit offset commits l
  handle_fetch handler (message offset (some evt) commits) l =
      commit offset commits
        (record l { world = (attempts (handler evt) max_retries (ok tt) l.world).1 })

  pub consume : {F : Float64} → (Event F → Exec W (Unit {0})) → List (Fetch F) → Loop W → Loop W
  consume handler [] l = l
  consume handler (f ∷ fs) l = consume handler fs (handle_fetch handler f l)
