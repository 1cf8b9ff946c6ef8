-- ===== src/Claims/Csv.antt =====
-- services/claim-service/internal/handler/http.go: `csvEscape` and `csvRow`, on code points.
pub mod Reader
use goshield.Prelude.{ℕ, Bool, true, false, ◌||◌, List, [], ◌∷◌, ◌++◌, eqb, any, if◌then◌else◌, map}

abbrev pub quote : ℕ
quote = b'"'

abbrev pub comma : ℕ
comma = b','

abbrev pub newline : ℕ
newline = 10

-- A comma, a quote, a line feed or a carriage return.
abbrev pub is_special : ℕ → Bool
is_special c = eqb c comma || eqb c quote || eqb c newline || eqb c 13

-- `strings.ReplaceAll(s, "\"", "\"\"")`
pub double_quotes : List ℕ → List ℕ
double_quotes [] = []
double_quotes (c ∷ s) = if eqb c quote then quote ∷ quote ∷ double_quotes s else c ∷ double_quotes s

unfoldable pub csv_escape : List ℕ → List ℕ
unfolding double_quotes
csv_escape s = if any is_special s then quote ∷ (double_quotes s ++ quote ∷ []) else s

-- `strings.Join(fields, ",")`
pub join : List (List ℕ) → List ℕ
join [] = []
join (f ∷ []) = f
join (f ∷ g ∷ fs) = f ++ comma ∷ join (g ∷ fs)

unfoldable pub csv_row : List (List ℕ) → List ℕ
unfolding join csv_escape
csv_row fields = join (map csv_escape fields)
