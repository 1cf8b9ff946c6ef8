-- ===== src/Gateway/Limiter/Window.antt =====
-- services/api-gateway/internal/ratelimit/redis_limiter.go: how many requests a window admits.
use goshield.Prelude.{
  inr, ltb→lt, length-append, inl, Bool-cases, if◌then◌else◌, ◌<◌, sym, ap, ◌∙◌, ℕ, ◌≤◌, ◌≡◌, refl,
  Bool, false, List, [], ◌∷◌, ◌++◌, length, any, select, arith,
}
use goshield.Gateway.Limiter.{ltb, true, run, add, Config, Entry, is_live, same_member, script}

select-append :
    {A : Type 0} (p : A → Bool) (xs ys : List A) → select p (xs ++ ys) ≡ select p xs ++ select p ys
select-append p [] ys = refl
select-append p (x ∷ xs) ys = ground (arith, select-append p xs ys)

-- What is live later is live now.
select-later :
    (window now later : ℕ) (es : List Entry)
    → now ≤ later
    → select (is_live window later) (select (is_live window now) es)
      ≡ select (is_live window later) es
select-later window now later [] le = refl
select-later window now later (e ∷ es) le = ground (arith, select-later window now later es le)

-- The times do not fall, and no two members are the same.
abbrev pub Orderly : Config → ℕ → List Entry → List Entry → Type 0
Orderly cfg from [] stored = Unit {0}
Orderly cfg from (e ∷ es) stored =
    (from ≤ e.at)
    × (any (same_member e) stored ≡ false)
    × Orderly cfg e.at es (script cfg e stored).1

-- The set and the admitted requests agree on what is live from a time on, and the set has room for
-- no more than the limit.
abbrev Agrees : Config → ℕ → List Entry × List Entry → Type 0
Agrees cfg from s =
    ((t : ℕ) → from ≤ t → select (is_live cfg.window t) s.0 ≡ select (is_live cfg.window t) s.1)
    × (length s.1 ≤ cfg.requests_per_minute)

length-select : {A : Type 0} (p : A → Bool) (xs : List A) → length (select p xs) ≤ length xs
length-select p [] = omega arith
length-select p (x ∷ xs) = ground (arith, length-select p xs)

any-select :
    {A : Type 0} (p q : A → Bool) (xs : List A) → any p xs ≡ false → any p (select q xs) ≡ false
any-select p q [] h = refl
any-select p q (x ∷ xs) h = ground (arith, any-select p q xs)

module _ (cfg : Config) (e : Entry) (admitted stored : List Entry) (from : ℕ) where
  agree_later :
      ((t : ℕ)
        → from ≤ t
        → select (is_live cfg.window t) admitted ≡ select (is_live cfg.window t) stored)
      → from ≤ e.at
      → (t : ℕ) → e.at ≤ t
      → select (is_live cfg.window t) admitted
        ≡ select (is_live cfg.window t) (select (is_live cfg.window e.at) stored)
  agree_later agrees le t later =
      agrees t (omega arith) ∙ sym (select-later cfg.window e.at t stored later)

  script-Agrees :
      from ≤ e.at
      → any (same_member e) stored ≡ false
      → Agrees cfg from (admitted, stored)
      → Agrees cfg e.at (
        (if (script cfg e stored).0.allowed then admitted ++ e ∷ [] else admitted),
        (script cfg e stored).1,
      )
  unfolding script add
  script-Agrees le fresh agrees =
      let live = select (is_live cfg.window e.at) stored in
      elim (Bool-cases (ltb (length live) cfg.requests_per_minute)) [
        | inl room ↦
            rw (room, any-select (same_member e) (is_live cfg.window e.at) stored fresh)
              (
                λ t later.
                    select-append (is_live cfg.window t) admitted (e ∷ [])
                    ∙ ap (λ xs. xs ++ select (is_live cfg.window t) (e ∷ []))
                        (agree_later agrees.0 le t later)
                    ∙ sym (select-append (is_live cfg.window t) live (e ∷ [])),
                omega (
                  arith,
                  length-append live (e ∷ []),
                  ltb→lt (length live) cfg.requests_per_minute room,
                ),
              )
        | inr full ↦ rw full (
          agree_later agrees.0 le,
          omega (arith, length-select (is_live cfg.window e.at) stored, agrees.1),
        )
      ]

-- The time of the last request.
abbrev pub last : ℕ → List Entry → ℕ
last from [] = from
last from (e ∷ es) = last e.at es

run-Agrees :
    (cfg : Config) (es : List Entry) (s : List Entry × List Entry) (from : ℕ)
    → Orderly cfg from es s.1
    → Agrees cfg from s
    → Agrees cfg (last from es) (run cfg es s)
unfolding run
run-Agrees cfg [] s from orderly agrees = agrees
run-Agrees cfg (e ∷ es) (admitted, stored) from orderly agrees =
    run-Agrees cfg es _ e.at orderly.2
      (script-Agrees cfg e admitted stored from orderly.0 orderly.1 agrees)

-- Of any requests whose times do not fall and whose members of the set differ, the ones that were
-- admitted within one window of the last, or of any later time, are no more than the limit.
pub run-bounded :
    (cfg : Config) (es : List Entry) (from t : ℕ)
    → Orderly cfg from es []
    → last from es ≤ t
    → length (select (is_live cfg.window t) (run cfg es ([], [])).0) ≤ cfg.requests_per_minute
run-bounded cfg es from t orderly later =
    let end = run-Agrees cfg es ([], []) from orderly ((λ u le. refl), omega arith) in
    omega (
      arith,
      ap length (end.0 t later),
      length-select (is_live cfg.window t) (run cfg es ([], [])).1,
      end.1,
    )

-- A request whose member is in the set already and still live is admitted below the limit, and the
-- set counts it no further.
pub script-same_member :
    (cfg : Config) (e : Entry) (es : List Entry)
    → any (same_member e) (select (is_live cfg.window e.at) es) ≡ true
    → length (select (is_live cfg.window e.at) es) < cfg.requests_per_minute
    → ((script cfg e es).0.allowed ≡ true)
      × ((script cfg e es).1 ≡ select (is_live cfg.window e.at) es)
unfolding script add
script-same_member cfg e es there room = ground arith
