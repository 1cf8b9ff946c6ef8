-- ===== src/Go/Text.antt =====
-- Text as lists of code points: what the code uses of `strings` and `path/filepath`.
use Prim.Native.Char.{code}
use goshield.Prelude.{
  ltb, ◌%◌, ◌/◌, not, suc, ◌-◌, ◌++◌, ◌||◌, ℕ, zero, suc, ◌+◌, String, Bool, true, false, ◌&&◌,
  List, [], ◌∷◌, map, leb, eqb, if◌then◌else◌, ◌≡◌, refl,
}

abbrev pub codes : String → List ℕ
codes String.[] = []
codes (String.◌∷◌ c s) = code c ∷ codes s

abbrev pub codes_eq : List ℕ → List ℕ → Bool
codes_eq [] [] = true
codes_eq [] (d ∷ ds) = false
codes_eq (c ∷ cs) [] = false
codes_eq (c ∷ cs) (d ∷ ds) = eqb c d && codes_eq cs ds

abbrev pub is_upper : ℕ → Bool
is_upper c = leb b'A' c && leb c b'Z'

abbrev pub Text : Type 0
Text = List ℕ

abbrev pub is_empty {ℓ} : {A : Type ℓ} → List A → Bool
is_empty [] = true
is_empty (x ∷ xs) = false

-- `len(s)`: the bytes of a text in UTF-8.
abbrev pub utf8_length : Text → ℕ
utf8_length [] = 0
utf8_length (c ∷ s) =
    (if ltb c 128 then 1 else if ltb c 2048 then 2 else if ltb c 65536 then 3 else 4)
    + utf8_length s

abbrev pub is_lower : ℕ → Bool
is_lower c = leb b'a' c && leb c b'z'

abbrev pub is_letter : ℕ → Bool
is_letter c = is_upper c || is_lower c

abbrev pub is_digit : ℕ → Bool
is_digit c = leb b'0' c && leb c b'9'

abbrev pub is_space : ℕ → Bool
is_space c = eqb c 32 || leb 9 c && leb c 13

trim_left : Text → Text
trim_left [] = []
trim_left (c ∷ s) = let rest = trim_left s in if is_space c then rest else c ∷ s

trim_right : Text → Text
trim_right [] = []
trim_right (c ∷ s) = elim (trim_right s) [
  | [] ↦ if is_space c then [] else c ∷ []
  | d ∷ ds ↦ c ∷ d ∷ ds
]

-- `strings.TrimSpace` on ASCII.
unfoldable pub trim_space : Text → Text
unfolding trim_left trim_right
trim_space s = trim_right (trim_left s)

words_from : Text → Text → List Text
words_from word [] = if is_empty word then [] else word ∷ []
words_from word (c ∷ s) =
    let rest = words_from (if is_space c then [] else word ++ c ∷ []) s in
    if is_space c && not (is_empty word) then word ∷ rest else rest

-- `strings.Fields` on ASCII.
unfoldable pub fields : Text → List Text
unfolding words_from
fields s = words_from [] s

-- The last `width` decimal digits, with zeros in front: `%0…d` of a number that has no more.
abbrev pub digits : ℕ → ℕ → Text
digits zero n = []
digits (suc width) n = digits width (n / 10) ++ (48 + n % 10) ∷ []

width_of : ℕ → ℕ → ℕ
width_of zero n = 0
width_of (suc most) n = let rest = width_of most (n / 10) in if ltb n 10 then 1 else suc rest

-- `%0…d` of a number below 10 ^ 20.
unfoldable pub number : ℕ → ℕ → Text
unfolding width_of
number width n = let needed = width_of 20 n in digits (if ltb width needed then needed else width) n

-- `strings.ToUpper` on ASCII letters.
abbrev pub to_upper : Text → Text
to_upper = map (λ c. if is_lower c then c - 32 else c)

-- `strings.ToLower` on ASCII letters; other letters are left as they are.
abbrev pub to_lower : List ℕ → List ℕ
to_lower = map (λ c. if is_upper c then c + 32 else c)

abbrev ext_scan : List ℕ → List ℕ → List ℕ
ext_scan found [] = found
ext_scan found (c ∷ cs) =
    ext_scan (if eqb c b'.' then c ∷ cs else if eqb c b'/' then [] else found) cs

-- `filepath.Ext`: from the last dot of the last element of the path.
unfoldable pub ext : List ℕ → List ℕ
ext path = ext_scan [] path

ext_last : ext (codes "a.b/c.tar.PDF") ≡ codes ".PDF"
unfolding ext
ext_last = refl
