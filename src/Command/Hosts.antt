-- ===== src/Command/Hosts.antt =====
-- What the texts of the command line are read as, and how long a cut title is.
use Prim.Native.Nat.{ℕ, zero, suc, ◌-◌, ◌≤◌}
use Prim.Native.Char.{Char, code}
use Prim.Native.String.{String, ◌++◌}
use text.Mathlib.TextBridge.{of_list, of_list-++}
use mathlib.Core.List.{◌++◌ as append}
use brod_cli.Base.{
  Bool, true, not, ◌&&◌, ◌==◌, leb, inl, inr, List, [], ◌∷◌, map, length, ◌≡◌, refl, sym, ap, ◌∙◌,
  arith, Bool-cases, leb→le, All, ◌≢◌,
}
use brod_cli.Command.Words.{runes, split_comma, trim, keep_parts, split_csv, truncate, take}

-- The text has not the character.
abbrev pub lacks : ℕ → List Char → Bool
lacks sep [] = true
lacks sep (c ∷ cs) = not (code c == sep) && lacks sep cs

-- A host of a bootstrap list: not empty, no comma, no white space around it.
abbrev pub IsHost : List Char → Type 0
IsHost h = (lacks b',' h ≡ true) × ((trim h ≡ h) × (length h ≢ 0))

-- The items with a comma between them.
abbrev pub join_comma : List (List Char) → List Char
join_comma [] = []
join_comma (h ∷ []) = h
join_comma (h ∷ h2 ∷ hs) = append h ("," ∷ join_comma (h2 ∷ hs))

pub runes-of_list : (cs : List Char) → runes (of_list cs) ≡ cs
runes-of_list [] = refl
runes-of_list (c ∷ cs) = ap (λ l. c ∷ l) (runes-of_list cs)

split_comma-lacks : (h : List Char) → lacks b',' h ≡ true → split_comma h ≡ h ∷ []
unfolding split_comma
split_comma-lacks [] e = refl
split_comma-lacks (c ∷ cs) e = rw (split_comma-lacks cs (ground arith)) (ground arith)

split_comma_cons :
    (s : List Char) → (p : List Char) × (ps : List (List Char)) × (split_comma s ≡ p ∷ ps)
unfolding split_comma
split_comma_cons [] = ([], [], refl)
split_comma_cons (c ∷ cs) =
    let (p, ps, q) = split_comma_cons cs in
    elim (Bool-cases (code c == b',')) [
      | inl e ↦ ([], p ∷ ps, rw (q, e) refl)
      | inr e ↦ (c ∷ p, ps, rw (q, e) refl)
    ]

split_comma-append :
    (h rest : List Char)
    → lacks b',' h ≡ true
    → split_comma (append h ("," ∷ rest)) ≡ h ∷ split_comma rest
unfolding split_comma
split_comma-append [] rest e = let (p, ps, q) = split_comma_cons rest in rw q refl
split_comma-append (c ∷ cs) rest e = rw (split_comma-append cs rest (ground arith)) (ground arith)

length-take_one : (n : ℕ) (c : Char) (xs : List Char) → length (append (take n xs) (c ∷ [])) ≤ suc n
length-take_one zero c xs = omega arith
length-take_one (suc n) c [] = omega arith
length-take_one (suc n) c (x ∷ xs) = let rest = length-take_one n c xs in omega arith

keep_host :
    (h : List Char) (ps : List (List Char))
    → IsHost h
    → keep_parts (h ∷ ps) ≡ of_list h ∷ keep_parts ps
unfolding keep_parts
keep_host [] ps ok = absurd (ok.1.1 refl)
keep_host (c ∷ cs) ps ok = rw (keep_parts, ok.1.0) refl

keep_parts-join_comma :
    (h : List Char) (hs : List (List Char))
    → IsHost h
    → All IsHost hs
    → keep_parts (split_comma (join_comma (h ∷ hs))) ≡ map of_list (h ∷ hs)
unfolding keep_parts
keep_parts-join_comma h [] ok _ = ap keep_parts (split_comma-lacks h ok.0) ∙ keep_host h [] ok
keep_parts-join_comma h (h2 ∷ hs) ok (ok2, oks) =
    ap keep_parts (split_comma-append h (join_comma (h2 ∷ hs)) ok.0)
    ∙ keep_host h (split_comma (join_comma (h2 ∷ hs))) ok
    ∙ ap (λ l. of_list h ∷ l) (keep_parts-join_comma h2 hs ok2 oks)

-- The hosts joined by commas are read back as the same hosts in the same order, if there is one
-- and each is not empty, has no comma in it and no white space around it.
pub split_csv-join_comma :
    (h : List Char) (hs : List (List Char))
    → IsHost h
    → All IsHost hs
    → split_csv (of_list (join_comma (h ∷ hs))) ≡ map of_list (h ∷ hs)
unfolding split_csv
split_csv-join_comma h hs ok oks =
    ap (λ l. keep_parts (split_comma l)) (runes-of_list (join_comma (h ∷ hs)))
    ∙ keep_parts-join_comma h hs ok oks

-- No text that `truncate` returns is longer than the bound, which is above 0, and a text within
-- the bound is returned as it is.
pub truncate_bound :
    (s : String) (n : ℕ)
    → n ≢ 0
    → (length (runes (truncate s n)) ≤ n) × (length (runes s) ≤ n → truncate s n ≡ s)
unfolding truncate
truncate_bound s n h = elim (Bool-cases (leb (length (runes s)) n)) [
  | inl fits ↦ rw fits (leb→le _ _ fits, λ _. refl)
  | inr long ↦
      let kept = take (n - 1) (runes s) in
      let same : runes (of_list kept ++ "…") ≡ append kept ("…" ∷ []) =
        ap runes (sym (of_list-++ kept ("…" ∷ []))) ∙ runes-of_list (append kept ("…" ∷ [])) in
      let short = length-take_one (n - 1) "…" (runes s) in
      (rw (long, same) (omega arith), λ small. absurd (ground arith))
]
