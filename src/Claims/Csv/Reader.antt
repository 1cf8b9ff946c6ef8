-- ===== src/Claims/Csv/Reader.antt =====
-- A reader of one CSV row as RFC 4180 describes it, and the proof that it gives back the fields of
-- every row that services/claim-service/internal/handler/http.go writes by `csvRow`.
use goshield.Prelude.{
  ℕ, ◌≡◌, refl, ap, ◌∙◌, true, false, List, [], ◌∷◌, ◌++◌, Option, none, some, arith, eqb, any, map,
  if◌then◌else◌, Bool-cases, inl, inr,
}
use mathlib.Core.List.{append_assoc, append-nil}
use goshield.Claims.Csv.{
  quote, comma, newline, is_special, double_quotes, csv_escape, join, csv_row,
}

-- Where the reader stands: at the start of a field, inside a bare one, inside a quoted one, or
-- behind a quote inside a quoted one.
pub data Mode : Type 0 where
  start bare quoted behind_quote : Mode

-- What a character means in a mode: it belongs to the field, ends the field or the row, only
-- changes the mode, or is no CSV.
pub data Action : Type 0 where
  keep enter : Mode → Action
  end_field end_row bad : Action

pub act : Mode → ℕ → Action
act quoted c = if eqb c quote then enter behind_quote else keep quoted
act behind_quote c =
    if eqb c quote
    then keep quoted
    else if eqb c comma
    then end_field
    else if eqb c newline
    then end_row
    else bad
act start c =
    if eqb c quote
    then enter quoted
    else if eqb c comma
    then end_field
    else if eqb c newline
    then end_row
    else if eqb c 13
    then bad
    else keep bare
act bare c =
    if eqb c quote
    then bad
    else if eqb c comma
    then end_field
    else if eqb c newline
    then end_row
    else if eqb c 13
    then bad
    else keep bare

-- `field` is what has been read of the field, and `fields` the fields before it.
pub read : Mode → List ℕ → List (List ℕ) → List ℕ → Option (List (List ℕ))
read m field fields [] = none
read m field fields (c ∷ s) = elim (act m c) [
  | keep n ↦ read n (field ++ c ∷ []) fields s
  | enter n ↦ read n field fields s
  | end_field ↦ read start [] (fields ++ field ∷ []) s
  | end_row ↦ some (fields ++ field ∷ [])
  | bad ↦ none
]

pub read_row : List ℕ → Option (List (List ℕ))
unfolding read
read_row = read start [] []

module _ (m n : Mode) (c : ℕ) (field : List ℕ) (fields : List (List ℕ)) (s : List ℕ) where
  read-keep : act m c ≡ keep n → read m field fields (c ∷ s) ≡ read n (field ++ c ∷ []) fields s
  unfolding read
  read-keep e = rw (e, read)

  read-enter : act m c ≡ enter n → read m field fields (c ∷ s) ≡ read n field fields s
  unfolding read
  read-enter e = rw (e, read)

module _ (m : Mode) (c : ℕ) (field : List ℕ) (fields : List (List ℕ)) (s : List ℕ) where
  read-end_field :
      act m c ≡ end_field → read m field fields (c ∷ s) ≡ read start [] (fields ++ field ∷ []) s
  unfolding read
  read-end_field e = rw (e, read)

  read-end_row : act m c ≡ end_row → read m field fields (c ∷ s) ≡ some (fields ++ field ∷ [])
  unfolding read
  read-end_row e = rw (e, read)

act-bare : (c : ℕ) → is_special c ≡ false → act bare c ≡ keep bare
unfolding act
act-bare c h = ground arith

act-start : (c : ℕ) → is_special c ≡ false → act start c ≡ keep bare
unfolding act
act-start c h = ground arith

act-quoted : (c : ℕ) → eqb c quote ≡ false → act quoted c ≡ keep quoted
unfolding act
act-quoted c h = ground arith

eqb→eq : (c d : ℕ) → eqb c d ≡ true → c ≡ d
eqb→eq c d h = ground arith

read_bare :
    (f field : List ℕ) (fields : List (List ℕ)) (s : List ℕ)
    → any is_special f ≡ false
    → read bare field fields (f ++ s) ≡ read bare (field ++ f) fields s
read_bare [] field fields s plain = rw append-nil
read_bare (c ∷ f) field fields s plain =
    read-keep bare bare c field fields (f ++ s) (act-bare c (ground arith))
    ∙ read_bare f (field ++ c ∷ []) fields s (ground arith)
    ∙ ap (λ g. read bare g fields s) (append_assoc field (c ∷ []) f)

read_quoted :
    (f field : List ℕ) (fields : List (List ℕ)) (s : List ℕ)
    → read quoted field fields (double_quotes f ++ s) ≡ read quoted (field ++ f) fields s
unfolding double_quotes
read_quoted [] field fields s = rw append-nil
read_quoted (c ∷ f) field fields s = elim (Bool-cases (eqb c quote)) [
  | inr e ↦ rw e (
      read-keep quoted quoted c field fields (double_quotes f ++ s) (act-quoted c e)
      ∙ read_quoted f (field ++ c ∷ []) fields s
      ∙ ap (λ g. read quoted g fields s) (append_assoc field (c ∷ []) f))
  | inl e ↦
      rw (e, eqb→eq c quote e)
        (read-enter quoted behind_quote quote field fields (quote ∷ double_quotes f ++ s)
            (unfold act in refl)
          ∙ read-keep behind_quote quoted quote field fields (double_quotes f ++ s)
              (unfold act in refl)
          ∙ read_quoted f (field ++ quote ∷ []) fields s
          ∙ ap (λ g. read quoted g fields s) (append_assoc field (quote ∷ []) f))
]

-- What comes behind a field: a comma and more, or the newline that ends the row.
abbrev finish : List ℕ → List (List ℕ) → List (List ℕ) → Option (List (List ℕ))
finish field fields [] = some (fields ++ field ∷ [])
finish field fields (g ∷ gs) =
    read start [] (fields ++ field ∷ []) (csv_row (g ∷ gs) ++ newline ∷ [])

abbrev after : List (List ℕ) → List ℕ
after [] = newline ∷ []
after (g ∷ gs) = comma ∷ csv_row (g ∷ gs) ++ newline ∷ []

-- The modes in which a comma or a newline ends the field.
data Ends : Mode → Type 0 where
  start_ends : Ends start
  bare_ends : Ends bare
  quote_ends : Ends behind_quote

act-comma : {m : Mode} → Ends m → act m comma ≡ end_field
unfolding act
act-comma start_ends = refl
act-comma bare_ends = refl
act-comma quote_ends = refl

act-newline : {m : Mode} → Ends m → act m newline ≡ end_row
unfolding act
act-newline start_ends = refl
act-newline bare_ends = refl
act-newline quote_ends = refl

read-after :
    {m : Mode} (e : Ends m) (field : List ℕ) (fields gs : List (List ℕ))
    → read m field fields (after gs) ≡ finish field fields gs
read-after {m} e field fields [] = read-end_row m newline field fields [] (act-newline e)
read-after {m} e field fields (g ∷ gs) =
    read-end_field m comma field fields (csv_row (g ∷ gs) ++ newline ∷ []) (act-comma e)

read_field :
    (f : List ℕ) (fields gs : List (List ℕ))
    → read start [] fields (csv_escape f ++ after gs) ≡ finish f fields gs
unfolding csv_escape
read_field f fields gs = elim (Bool-cases (any is_special f)) [
  | inl e ↦ rw e (
      read-enter start quoted quote [] fields ((double_quotes f ++ quote ∷ []) ++ after gs)
        (unfold act in refl)
      ∙ ap (read quoted [] fields) (append_assoc (double_quotes f) (quote ∷ []) (after gs))
      ∙ read_quoted f [] fields (quote ∷ after gs)
      ∙ read-enter quoted behind_quote quote f fields (after gs) (unfold act in refl)
      ∙ read-after quote_ends f fields gs)
  | inr e ↦ rw e (plain f e)
]
  where
    plain :
        (h : List ℕ)
        → any is_special h ≡ false
        → read start [] fields (h ++ after gs) ≡ finish h fields gs
    plain [] p = read-after start_ends [] fields gs
    plain (c ∷ h) p =
        read-keep start bare c [] fields (h ++ after gs) (act-start c (ground arith))
        ∙ read_bare h (c ∷ []) fields (after gs) (ground arith)
        ∙ read-after bare_ends (c ∷ h) fields gs

csv_row-cons :
    (f : List ℕ) (gs : List (List ℕ)) → csv_row (f ∷ gs) ++ newline ∷ [] ≡ csv_escape f ++ after gs
unfolding csv_row
csv_row-cons f [] = refl
csv_row-cons f (g ∷ gs) =
    append_assoc (csv_escape f) (comma ∷ join (map csv_escape (g ∷ gs))) (newline ∷ [])

read_rows :
    (f : List ℕ) (gs fields : List (List ℕ))
    → read start [] fields (csv_row (f ∷ gs) ++ newline ∷ []) ≡ some (fields ++ f ∷ gs)
read_rows f [] fields = ap (read start [] fields) (csv_row-cons f []) ∙ read_field f fields []
read_rows f (g ∷ gs) fields =
    ap (read start [] fields) (csv_row-cons f (g ∷ gs))
    ∙ read_field f fields (g ∷ gs)
    ∙ read_rows g gs (fields ++ f ∷ [])
    ∙ ap some (append_assoc fields (f ∷ []) (g ∷ gs))

-- Reading a written row gives the fields back, whatever characters they hold.
pub read_row-csv_row :
    (f : List ℕ) (gs : List (List ℕ)) → read_row (csv_row (f ∷ gs) ++ newline ∷ []) ≡ some (f ∷ gs)
unfolding read_row
read_row-csv_row f gs = read_rows f gs []
