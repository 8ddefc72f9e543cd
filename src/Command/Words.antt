-- ===== src/Command/Words.antt =====
-- cmd/brod: splitting, trimming, truncating and padding of texts. A Go string is the list of its
-- code points, and `string` of a list of runes is the text again.
use Prim.Native.Nat.{ℕ, zero, suc, ◌-◌}
use Prim.Native.Char.{Char, code}
use Prim.Native.String.{String, ◌++◌}
use text.Mathlib.TextBridge.{of_list}
use mathlib.Core.List.{reverse}
use brod_cli.Base.{◌==◌, leb, Option, none, some, List, [], ◌∷◌, length, if◌then◌else◌}
use brod_cli.Base.Text.{is_space}
use brod_cli.Base.Float.{Float}

-- `[]rune(s)`
abbrev pub runes : String → List Char
runes String.[] = []
runes (String.◌∷◌ c s) = c ∷ runes s

-- The text before the first occurrence of a separator, and what follows it.
unfoldable pub cut : ℕ → List Char → Option (List Char × List Char)
cut sep [] = none
cut sep (c ∷ cs) =
    let rest = cut sep cs in
    if code c == sep
    then some ([], cs)
    else elim rest [ none ↦ none | some (a, b) ↦ some (c ∷ a, b) ]

-- `strings.Split` at a comma.
unfoldable pub split_comma : List Char → List (List Char)
split_comma [] = [] ∷ []
split_comma (c ∷ cs) = elim (split_comma cs) [
  | [] ↦ []
  | part ∷ parts ↦ if code c == b',' then [] ∷ part ∷ parts else (c ∷ part) ∷ parts
]

unfoldable pub drop_spaces : List Char → List Char
drop_spaces [] = []
drop_spaces (c ∷ cs) = if is_space (code c) then drop_spaces cs else c ∷ cs

-- `strings.TrimSpace`
unfoldable pub trim : List Char → List Char
trim cs = reverse (drop_spaces (reverse (drop_spaces cs)))

-- The loop of `splitCSV`.
unfoldable pub keep_parts : List (List Char) → List String
keep_parts [] = []
keep_parts (p ∷ ps) = elim (trim p) [
  | [] ↦ keep_parts ps
  | c ∷ cs ↦ of_list (c ∷ cs) ∷ keep_parts ps
]

unfoldable pub split_csv : String → List String
split_csv s = keep_parts (split_comma (runes s))

-- `hosts[0][:i]` for the last colon at i > 0, else `hosts[0]`.
unfoldable pub host_part : String → String
host_part host = elim (cut b':' (reverse (runes host))) [
  | none ↦ host
  | some (port, []) ↦ host
  | some (port, c ∷ cs) ↦ of_list (reverse (c ∷ cs))
]

unfoldable pub first_host : String → String
first_host bootstrap = elim (split_csv bootstrap) [
  | [] ↦ "kafka-cluster"
  | host ∷ hosts ↦ host_part host
]

abbrev pub take : {A : Type 0} → ℕ → List A → List A
take zero xs = []
take (suc n) [] = []
take (suc n) (x ∷ xs) = x ∷ take n xs

-- The bound `n` is above 0.
unfoldable pub truncate : String → ℕ → String
truncate s n = let r = runes s in if leb (length r) n then s else of_list (take (n - 1) r) ++ "…"

-- `strings.Repeat`
abbrev pub repeat : ℕ → String → String
repeat zero s = ""
repeat (suc n) s = s ++ repeat n s

-- `%-ns` and `%ns`
abbrev pub pad_right : ℕ → String → String
pad_right n s = s ++ repeat (n - length (runes s)) " "

abbrev pub pad_left : ℕ → String → String
pad_left n s = repeat (n - length (runes s)) " " ++ s

module _ {F : Type 0} ⦃f : Float F⦄ where
  unfoldable pub eur : F → String
  eur v = "€" ++ f.fixed 2 v
