-- ===== src/Events/Consumer/Retries.antt =====
-- The consumer's loop: how often a handler runs, and that no event blocks those behind it.
use goshield.Prelude.{
  ℕ, zero, suc, ◌<◌, ◌≡◌, refl, ap, true, false, List, [], ◌∷◌, ◌++◌, none, some, arith,
  if◌then◌else◌, ◌≡⟨◌⟩◌, ◌∎,
}
use mathlib.Core.List.{append_assoc, append-nil}
use goshield.Go.Errors.{Error, Result, ok, err, is_ok}
use goshield.Go.Float.{Float64}
use goshield.Go.World.{Exec}
use goshield.Events.Payload.{Event}
use goshield.Events.Consumer.{Fetch, failed, message, Loop, attempts, handle_fetch, consume}

module _ {W : Type 0} (handler : Exec W (Unit {0})) where
  -- The world after the handler has run n times.
  abbrev pub after_runs : ℕ → W → W
  after_runs zero w = w
  after_runs (suc n) w = after_runs n (handler w).1

  -- The handler fails in each of its first n runs.
  abbrev pub FailsFor : ℕ → W → Type 0
  FailsFor zero w = Unit {0}
  FailsFor (suc n) w = ((e : Error) × ((handler w).0 ≡ err e)) × FailsFor n (handler w).1

  -- If the handler fails k times and then succeeds, and n attempts are more than k, the loop runs it
  -- k + 1 times and stops without an error.
  pub attempts_stop :
      (k n : ℕ) (r : Result (Unit {0})) (w : W)
      → FailsFor k w
      → (handler (after_runs k w)).0 ≡ ok tt
      → k < n
      → attempts handler n r w ≡ (ok tt, after_runs (suc k) w)
  unfolding attempts
  attempts_stop k zero r w fails good lt = absurd (omega arith)
  attempts_stop zero (suc n) r w fails good lt = rw (good, attempts)
  attempts_stop (suc k) (suc n) r w (first, rest) good lt =
      rw (first.1, attempts) (attempts_stop k n (err first.0) (handler w).1 rest good (omega arith))

  -- If it fails in all n runs, it has run n times, and an error is returned.
  pub attempts_fail :
      (n : ℕ) (e : Error) (w : W)
      → FailsFor n w
      → ((attempts handler n (err e) w).1 ≡ after_runs n w)
        × (is_ok (attempts handler n (err e) w).0 ≡ false)
  unfolding attempts
  attempts_fail zero e w fails = (refl, refl)
  attempts_fail (suc n) e w (first, rest) =
      rw (first.1, attempts) (attempts_fail n first.0 (handler w).1 rest)

-- The offsets that a list of fetches asks to commit, where the commits succeed.
abbrev pub offsets : {F : Float64} → List (Fetch F) → List ℕ
offsets [] = []
offsets (failed ∷ fs) = offsets fs
offsets (message n evt commits ∷ fs) = if commits then n ∷ offsets fs else offsets fs

commits-handle_fetch :
    {F : Float64} {W : Type 0} (handler : Event F → Exec W (Unit {0})) (f : Fetch F) (l : Loop W)
    → (handle_fetch handler f l).committed ≡ l.committed ++ offsets (f ∷ [])
unfolding handle_fetch
commits-handle_fetch handler failed l = rw append-nil
commits-handle_fetch handler (message n none true) l = refl
commits-handle_fetch handler (message n none false) l = rw append-nil
commits-handle_fetch handler (message n (some evt) true) l = refl
commits-handle_fetch handler (message n (some evt) false) l = rw append-nil

offsets-cons :
    {F : Float64} (f : Fetch F) (fs : List (Fetch F))
    → offsets (f ∷ []) ++ offsets fs ≡ offsets (f ∷ fs)
offsets-cons failed fs = refl
offsets-cons (message n evt true) fs = refl
offsets-cons (message n evt false) fs = refl

-- Whatever the handler does, each message whose commit succeeds is committed once and in order.
pub consume-commits :
    {F : Float64} {W : Type 0} (handler : Event F → Exec W (Unit {0})) (fs : List (Fetch F))
    (l : Loop W)
    → (consume handler fs l).committed ≡ l.committed ++ offsets fs
unfolding consume
consume-commits handler [] l = rw append-nil
consume-commits handler (f ∷ fs) l =
    (consume handler fs (handle_fetch handler f l)).committed
    ≡⟨ consume-commits handler fs (handle_fetch handler f l) ⟩
      (handle_fetch handler f l).committed ++ offsets fs
    ≡⟨ ap (λ c. c ++ offsets fs) (commits-handle_fetch handler f l) ⟩
      (l.committed ++ offsets (f ∷ [])) ++ offsets fs
    ≡⟨ append_assoc l.committed (offsets (f ∷ [])) (offsets fs) ⟩
      l.committed ++ (offsets (f ∷ []) ++ offsets fs)
    ≡⟨ ap (λ c. l.committed ++ c) (offsets-cons f fs) ⟩ l.committed ++ offsets (f ∷ fs) ∎
