-- ===== src/Prelude/Lists.antt =====
-- Lists over the native numbers, and the operations of a table of rows.
use Prim.Native.Nat.{ℕ, zero, suc, ◌+◌, ◌≤◌}
use mathlib.Core.Path.{◌≡◌, refl}
use mathlib.Core.Bool.{Bool, true, false, ◌||◌}
use mathlib.Core.Option.{Option, none, some}
use mathlib.Core.List.{map, List, [], ◌∷◌, ◌++◌}
use native.Mathlib.Omega.{arith}
use goshield.Prelude.Tests.{if◌then◌else◌}

module _ {ℓ} {A : Type ℓ} where
  abbrev pub length : List A → ℕ
  length [] = 0
  length (x ∷ xs) = suc (length xs)

  abbrev pub take : ℕ → List A → List A
  take zero xs = []
  take (suc n) [] = []
  take (suc n) (x ∷ xs) = x ∷ take n xs

  abbrev pub drop : ℕ → List A → List A
  drop zero xs = xs
  drop (suc n) [] = []
  drop (suc n) (x ∷ xs) = drop n xs

  abbrev pub any : (A → Bool) → List A → Bool
  any p [] = false
  any p (x ∷ xs) = p x || any p xs

  -- The rows that pass a test.
  abbrev pub select : (A → Bool) → List A → List A
  select p [] = []
  select p (x ∷ xs) = let rest = select p xs in if p x then x ∷ rest else rest

  -- The first row that passes a test.
  abbrev pub find : (A → Bool) → List A → Option A
  find p [] = none
  find p (x ∷ xs) = if p x then some x else find p xs

  -- `UPDATE … SET f WHERE p`.
  abbrev pub update_where : (A → Bool) → (A → A) → List A → List A
  update_where p f [] = []
  update_where p f (x ∷ xs) = (if p x then f x else x) ∷ update_where p f xs

  -- `DELETE … WHERE p`.
  abbrev pub delete_where : (A → Bool) → List A → List A
  delete_where p [] = []
  delete_where p (x ∷ xs) = let rest = delete_where p xs in if p x then rest else x ∷ rest

  -- A predicate of every row.
  abbrev pub All {κ} : (A → Type κ) → List A → Type κ
  All P [] = Unit
  All P (x ∷ xs) = P x × All P xs

  pub length-append : (xs ys : List A) → length (xs ++ ys) ≡ length xs + length ys
  length-append [] ys = omega arith
  length-append (x ∷ xs) ys = omega (arith, length-append xs ys)

  pub length-take-le : (n : ℕ) (xs : List A) → length (take n xs) ≤ n
  length-take-le zero xs = omega arith
  length-take-le (suc n) [] = omega arith
  length-take-le (suc n) (x ∷ xs) = omega (arith, length-take-le n xs)

  pub length-update_where :
      (p : A → Bool) (f : A → A) (xs : List A) → length (update_where p f xs) ≡ length xs
  length-update_where p f [] = refl
  length-update_where p f (x ∷ xs) = omega (arith, length-update_where p f xs)

  pub All-append {κ} : (P : A → Type κ) (xs ys : List A) → All P xs → All P ys → All P (xs ++ ys)
  All-append P [] ys h k = k
  All-append P (x ∷ xs) ys h k = (h.0, All-append P xs ys h.1 k)

  pub All-update_where {κ} :
      (P : A → Type κ) (p : A → Bool) (f : A → A) (xs : List A)
      → ((x : A) → p x ≡ true → P x → P (f x))
      → All P xs
      → All P (update_where p f xs)
  All-update_where P p f [] step h = h
  All-update_where P p f (x ∷ xs) step h =
      (row (p x) (λ e. step x e h.0), All-update_where P p f xs step h.1)
    where
      row : (b : Bool) → (b ≡ true → P (f x)) → P (if b then f x else x)
      row true k = k refl
      row false k = h.0

  pub All-delete_where {κ} :
      (P : A → Type κ) (p : A → Bool) (xs : List A) → All P xs → All P (delete_where p xs)
  All-delete_where P p [] h = h
  All-delete_where P p (x ∷ xs) h = row (p x) (All-delete_where P p xs h.1)
    where
      row :
          (b : Bool)
          → All P (delete_where p xs)
          → All P (if b then delete_where p xs else x ∷ delete_where p xs)
      row true rest = rest
      row false rest = (h.0, rest)

  -- A write to rows that a selection does not show, and does not come to show, leaves it alone.
  pub select-update_where :
      (q p : A → Bool) (f : A → A) (xs : List A)
      → ((x : A) → p x ≡ true → (q x ≡ false) × (q (f x) ≡ false))
      → select q (update_where p f xs) ≡ select q xs
  select-update_where q p f [] hidden = refl
  select-update_where q p f (x ∷ xs) hidden =
      ground (arith, hidden x, select-update_where q p f xs hidden)

  pub select-delete_where :
      (q p : A → Bool) (xs : List A)
      → ((x : A) → p x ≡ true → q x ≡ false)
      → select q (delete_where p xs) ≡ select q xs
  select-delete_where q p [] hidden = refl
  select-delete_where q p (x ∷ xs) hidden =
      ground (arith, hidden x, select-delete_where q p xs hidden)

  pub select-append_row :
      (q : A → Bool) (xs : List A) (y : A) → q y ≡ false → select q (xs ++ y ∷ []) ≡ select q xs
  select-append_row q [] y hidden = rw hidden
  select-append_row q (x ∷ xs) y hidden = ground (arith, select-append_row q xs y hidden)

  -- A selection of a table that has grown by a row.
  pub select-append :
      (q : A → Bool) (xs : List A) (y : A)
      → select q (xs ++ y ∷ []) ≡ select q xs ++ (if q y then y ∷ [] else [])
  select-append q [] y = refl
  select-append q (x ∷ xs) y = ground (arith, select-append q xs y)

  -- The first row that passes a test, after an update of the rows that do.
  pub find-update_where :
      (p : A → Bool) (f : A → A) (xs : List A) (y : A)
      → ((x : A) → p (f x) ≡ p x)
      → find p xs ≡ some y
      → find p (update_where p f xs) ≡ some (f y)
  find-update_where p f [] y same e = cc
  find-update_where p f (x ∷ xs) y same e = ground (arith, same x, find-update_where p f xs y same)

  pub find_last :
      (p : A → Bool) (xs : List A) (y : A)
      → any p xs ≡ false
      → p y ≡ true
      → find p (xs ++ y ∷ []) ≡ some y
  find_last p [] y none_before hit = rw hit
  find_last p (x ∷ xs) y none_before hit = ground (arith, find_last p xs y)

pub map-append {ℓ κ} :
    {A : Type ℓ} {B : Type κ} (f : A → B) (xs ys : List A) → map f (xs ++ ys) ≡ map f xs ++ map f ys
map-append f [] ys = refl
map-append f (x ∷ xs) ys = rw (map-append f xs ys)
