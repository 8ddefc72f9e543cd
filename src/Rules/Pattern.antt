-- ===== src/Rules/Pattern.antt =====
-- The name pattern of rule R6 (internal/rules/r6_replication.go). A compiled pattern is its source
-- and its `MatchString`; the default one, a fixed regular expression, is matched here by hand.
use Prim.Native.String.{String}
use brod_cli.Base.{
  ℕ, Bool, true, false, ◌&&◌, ◌||◌, List, [], ◌∷◌, map, ◌==◌, ◌≡◌, refl, if◌then◌else◌,
}
use brod_cli.Base.Text.{codes, to_lower}

pub record Pattern : Type 0 where
  pub source : String
  pub match_string : String → Bool

-- `[._-]`
is_separator : ℕ → Bool
is_separator c = c == b'.' || (c == b'_' || c == b'-')

-- `(?i)` folds ASCII letters; U+017F folds to `s`.
fold_case : ℕ → ℕ
unfolding to_lower
fold_case c = if c == 0x17F then b's' else to_lower c

-- The rest of the text behind a word, if it begins with it.
after : List ℕ → List ℕ → Bool
unfolding is_separator
after [] [] = true
after [] (c ∷ cs) = is_separator c
after (w ∷ ws) [] = false
after (w ∷ ws) (c ∷ cs) = w == c && after ws cs

-- `(dev|test|tmp|temp|staging|sandbox)([._-]|$)` at the head of the text.
word_here : List ℕ → Bool
unfolding after codes
word_here cs =
    after (codes "dev") cs
    || (after (codes "test") cs
        || (after (codes "tmp") cs
            || (after (codes "temp") cs
                || (after (codes "staging") cs || after (codes "sandbox") cs))))

-- The pattern behind a separator somewhere in the text.
word_later : List ℕ → Bool
unfolding word_here
word_later [] = false
word_later (c ∷ cs) = is_separator c && word_here cs || word_later cs

unfoldable pub match_non_prod : String → Bool
unfolding fold_case word_later codes
match_non_prod name = let cs = map fold_case (codes name) in word_here cs || word_later cs

unfoldable pub non_prod_pattern : Pattern
non_prod_pattern = record {
  source = "(?i)(^|[._-])(dev|test|tmp|temp|staging|sandbox)([._-]|$)";
  match_string = match_non_prod;
}

matched : match_non_prod "orders.DEV" && match_non_prod "tmp_x" ≡ true
unfolding match_non_prod
matched = refl

unmatched : match_non_prod "device.latest" ≡ false
unfolding match_non_prod
unmatched = refl
