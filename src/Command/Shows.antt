-- ===== src/Command/Shows.antt =====
-- What a line of a report shows: texts, in their order, and a text that may be cut.
use Prim.Native.Nat.{◌-◌, ◌≤◌, ◌<◌}
use Prim.Native.String.{String, ◌++◌}
use text.Mathlib.TextBridge.{of_list}
use text.Mathlib.TextLemmas.{append_assoc, nil-append, append-nil}
use mathlib.Core.List.{Mem}
use brod_cli.Base.{
  ℕ, ◌≡◌, refl, sym, ap, ◌∙◌, ◌⊎◌, inl, inr, List, [], ◌∷◌, length, leb, Bool-cases, arith,
}
use brod_cli.Command.Words.{runes, take, repeat, truncate, pad_right, pad_left}

-- The line holds the texts one behind the other, with anything before, between and behind them.
abbrev pub Shows : List String → String → Type 0
Shows [] line = Unit
Shows (p ∷ ps) line =
    (before : String) × ((after : String) × ((line ≡ before ++ (p ++ after)) × Shows ps after))

-- A line of the report does.
abbrev pub IsShown : List String → List String → Type 0
IsShown ps report = (line : String) × (Mem line report × Shows ps line)

-- The text itself where it has at most `n` characters, else its first `n - 1` and an ellipsis.
abbrev pub IsCut : ℕ → String → String → Type 0
IsCut n s t =
    ((length (runes s) ≤ n) × (t ≡ s))
    ⊎ ((n < length (runes s)) × (t ≡ of_list (take (n - 1) (runes s)) ++ "…"))

pub truncate-IsCut : (s : String) (n : ℕ) → IsCut n s (truncate s n)
unfolding truncate
truncate-IsCut s n = elim (Bool-cases (leb (length (runes s)) n)) [
  | inl fits ↦ rw fits (inl (ground arith, refl))
  | inr long ↦ rw long (inr (ground arith, refl))
]

pub append-Shows : (ps : List String) (text line : String) → Shows ps line → Shows ps (text ++ line)
append-Shows [] text line h = tt
append-Shows (p ∷ ps) text line (before, (after, (e, h))) = (
  text ++ before,
  (after, (ap (λ z. text ++ z) e ∙ sym (append_assoc text before (p ++ after)), h)),
)

pub first-Shows : (ps : List String) (p line : String) → Shows ps line → Shows (p ∷ ps) (p ++ line)
first-Shows ps p line h = ("", (line, (sym (nil-append (p ++ line)), h)))

pub last-Shows : (p : String) → Shows (p ∷ []) p
last-Shows p = ("", ("", (sym (append-nil p) ∙ sym (nil-append (p ++ "")), tt)))

pub pad_right-Shows :
    (ps : List String) (n : ℕ) (p line : String)
    → Shows ps line
    → Shows (p ∷ ps) (pad_right n p ++ line)
pad_right-Shows ps n p line h =
    let pad = repeat (n - length (runes p)) " " in
    (
      "",
      (
        pad ++ line,
        (
          append_assoc p pad line ∙ sym (nil-append (p ++ (pad ++ line))),
          append-Shows ps pad line h,
        ),
      ),
    )

pub pad_left-Shows : (n : ℕ) (p text : String) → Shows ((p ++ text) ∷ []) (pad_left n p ++ text)
pad_left-Shows n p text =
    let pad = repeat (n - length (runes p)) " " in
    (pad, ("", (append_assoc pad p text ∙ ap (λ z. pad ++ z) (sym (append-nil (p ++ text))), tt)))

-- The padded text is passed over.
pub after_pad-Shows :
    (ps : List String) (n : ℕ) (p line : String) → Shows ps line → Shows ps (pad_right n p ++ line)
after_pad-Shows ps n p line h = append-Shows ps (pad_right n p) line h
