-- ===== src/Go/World.antt =====
-- The world that a service acts on: its store, the messages that it has published, and a count of
-- the calls that it has made. What the outside answers is an argument, `Env`.
pub mod Steps
pub mod Refuses
use goshield.Prelude.{
  ℕ, ◌+◌, ◌≡◌, refl, String, Bool, true, false, Option, none, some, List, [], ◌∷◌, ◌++◌,
  if◌then◌else◌,
}
use goshield.Go.Errors.{Error, Result, ok, err, external, wrapf}

-- What the outside does at the n-th call.
pub record Env : Type 0 where
  -- The database or the broker refuses the call.
  pub fails : ℕ → Bool
  -- `uuid.New().String()`
  pub uuid : ℕ → String
  -- `time.Now()`
  pub now : ℕ → ℕ
  -- `t.Format("2006-01-02")`
  pub format_date : ℕ → String
  -- `time.Parse("2006-01-02", s)`, if it succeeds
  pub parse_date : String → Option ℕ
  -- What a column TIMESTAMPTZ keeps of a time, and a column DATE.
  pub micros : ℕ → ℕ
  pub day : ℕ → ℕ

-- `M` is the type of the messages.
pub record World (M S : Type 0) : Type 0 where
  pub store : S
  pub published : List M
  pub calls : ℕ

-- What was written before an error stays written.
abbrev pub Exec : Type 0 → Type 0 → Type 0
Exec W A = W → Result A × W

abbrev pub continue : {W A B : Type 0} → Result A → (A → Exec W B) → Exec W B
continue (ok a) f w = f a w
continue (err e) f w = (err e, w)

pub pure : {W A : Type 0} → A → Exec W A
pure a w = (ok a, w)

pub lift : {W A : Type 0} → Result A → Exec W A
lift r w = (r, w)

-- `if err != nil { return fmt.Errorf("context: %w", err) }`
pub wrapping : {W A : Type 0} → String → Exec W A → Exec W A
wrapping context m w = (wrapf context (m w).0, (m w).1)

-- `err := …` where the caller looks at the error, or ignores it.
pub attempt : {W A : Type 0} → Exec W A → Exec W (Result A)
attempt m w = (ok (m w).0, (m w).1)

module _ {M S : Type 0} where
  -- What a function of the store finds, without a write.
  pub reads : {A : Type 0} → (S → Result A) → Exec (World M S) A
  reads f w = (f w.store, w)

  -- A write to the store.
  pub writes : (S → S) → Exec (World M S) (Unit {0})
  writes f w = (ok tt, record w { store = f w.store })

  -- `events.Publish`, the bus of the process: it cannot fail.
  pub publish : M → Exec (World M S) (Unit {0})
  publish m w = (ok tt, record w { published = w.published ++ m ∷ [] })

module _ (env : Env) {M S : Type 0} where
  -- A call of the outside that may fail; it works on the world if it does not.
  pub call : {A : Type 0} → Exec (World M S) A → Exec (World M S) A
  call m w =
      let w' = record w { calls = w.calls + 1 } in
      if env.fails w.calls then (err (external w.calls), w') else m w'

  pub new_uuid : Exec (World M S) String
  new_uuid w = (ok (env.uuid w.calls), record w { calls = w.calls + 1 })

  pub time_now : Exec (World M S) ℕ
  time_now w = (ok (env.now w.calls), w)

  abbrev deliver : M → Exec (World M S) (Unit {0})
  deliver m w = (ok tt, record w { published = w.published ++ m ∷ [] })

  -- A write to the broker that fails has not delivered the message.
  pub send : M → Exec (World M S) (Unit {0})
  unfolding call
  send m = call (deliver m)

infixl 5 ◌>>=◌ ◌>>◌
-- Opening this opens all the actions above.
unfoldable pub ◌>>=◌ : {W A B : Type 0} → Exec W A → (A → Exec W B) → Exec W B
unfolding pure lift wrapping attempt reads writes publish call new_uuid time_now send
◌>>=◌ m f w = continue (m w).0 f (m w).1

abbrev pub ◌>>◌ : {W A B : Type 0} → Exec W A → Exec W B → Exec W B
m >> n = m >>= λ _. n
