-- ===== src/Inventory/Codes.antt =====
-- goerp/internal/inventory/usecase/inventory_usecase.go: the codes that are made up from names and
-- random numbers. The random number is an argument; letters are ASCII.
use goshield.Prelude.{
  ℕ, String, ◌||◌, List, [], ◌∷◌, ◌++◌, ◌==◌, true, false, length, take, select, leb, ltb,
  if◌then◌else◌,
}
use goshield.Go.Text.{Text, codes, is_letter, is_digit, is_empty, to_upper, fields, digits}

-- The first letter of a word, if it begins with one.
abbrev initial : Text → Text
initial [] = []
initial (c ∷ w) = if is_letter c then to_upper (c ∷ []) else []

-- The loop over the words, which stops at four letters.
abbrev pub initials : Text → List Text → Text
initials prefix [] = prefix
initials prefix (w ∷ ws) = elim (leb 4 (length (prefix ++ initial w))) [
  | true ↦ prefix ++ initial w
  | false ↦ initials (prefix ++ initial w) ws
]

abbrev or_prod : Text → Text
or_prod prefix = if is_empty prefix then codes "PROD" else prefix

abbrev padded : Text → Text
padded prefix = if ltb (length prefix) 2 then prefix ++ codes "X" else prefix

-- `rand.Intn(10000)` has drawn `drawn`.
unfoldable pub generate_sku : ℕ → Text → Text
generate_sku drawn name =
    padded (or_prod (initials [] (fields name))) ++ codes "-" ++ digits 4 drawn

abbrev alphanumerics : Text → Text
alphanumerics w = select (λ c. is_letter c || is_digit c) (to_upper w)

abbrev pub gather : ℕ → Text → List Text → Text
gather max_len code [] = code
gather max_len code (w ∷ ws) = elim (leb max_len (length (code ++ alphanumerics w))) [
  | true ↦ code ++ alphanumerics w
  | false ↦ gather max_len (code ++ alphanumerics w) ws
]

-- `rand.Intn(1000)` has drawn `drawn`.
unfoldable pub generate_code : ℕ → Text → ℕ → Text
generate_code drawn name max_len =
    let code = take max_len (gather max_len [] (fields name)) in
    if is_empty code then codes "LOC" ++ digits 3 drawn else code

abbrev move_prefix : String → Text
move_prefix t =
    if t == "in"
    then codes "IN"
    else if t == "out"
    then codes "OUT"
    else if t == "transfer"
    then codes "TRF"
    else if t == "adjust"
    then codes "ADJ"
    else if t == "return"
    then codes "RET"
    else if t == "scrap"
    then codes "SCR"
    else codes "MOV"

-- `rand.Intn(100000)` has drawn `drawn`; `day` is today's date without separators.
unfoldable pub generate_move_reference : ℕ → Text → String → Text
generate_move_reference drawn day move_type =
    move_prefix move_type ++ codes "-" ++ day ++ codes "-" ++ digits 5 drawn
