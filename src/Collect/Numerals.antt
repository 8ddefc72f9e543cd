-- ===== src/Collect/Numerals.antt =====
-- What `retentionMs` reads of a printed number.
use Prim.Native.Nat.{ℕ, zero, suc, ◌+◌, ◌*◌, ◌/◌, ◌%◌, ◌<◌, ◌≤◌, ◌^◌}
use Prim.Native.Char.{Char, code}
use Prim.Native.String.{String, ◌++◌}
use text.Mathlib.TextLemmas.{cons-append, nil-append}
use mathlib.Core.Option.{some-injective}
use mathlib.Core.List.{cons-ne-nil, reverse, mem-reverse, reverse-reverse}
use brod_cli.Base.{
  inl, inr, Bool, true, false, ◌&&◌, ◌≡◌, refl, sym, ap, ◌∙◌, List, [], ◌∷◌, some, Bool-cases, All,
  All-imp, All-mem, forall_mem-All, leb, ltb, arith, ◌≢◌,
}
use brod_cli.Base.Int.{ℤ, pos, negsuc, IsI64}
use brod_cli.Base.Maps.{or_zero}
use brod_cli.Base.Text.{codes, is_space, trim_left, trim_space, digit, show_from, show_ℕ, show_ℤ}
use brod_cli.Collect.Mapping.{parse_digits, parse_int, retention_ms}

-- The code point is that of a decimal digit.
abbrev is_digit : ℕ → Bool
is_digit c = leb b'0' c && leb c b'9'

abbrev AllDigits : List ℕ → Type 0
AllDigits = All (λ c. is_digit c ≡ true)

abbrev Unspaced : List ℕ → Type 0
Unspaced = All (λ c. is_space c ≡ false)

codes-cons : (c : Char) (rest : String) → codes (String.◌∷◌ c "" ++ rest) ≡ code c ∷ codes rest
unfolding codes
codes-cons c rest = ap codes (cons-append c "" rest ∙ ap (String.◌∷◌ c) (nil-append rest))

codes-digit : (k : ℕ) (rest : String) → k < 10 → codes (digit k ++ rest) ≡ (b'0' + k) ∷ codes rest
codes-digit zero rest h = codes-cons "0" rest
codes-digit (suc zero) rest h = codes-cons "1" rest
codes-digit (suc (suc zero)) rest h = codes-cons "2" rest
codes-digit (suc (suc (suc zero))) rest h = codes-cons "3" rest
codes-digit (suc (suc (suc (suc zero)))) rest h = codes-cons "4" rest
codes-digit (suc (suc (suc (suc (suc zero))))) rest h = codes-cons "5" rest
codes-digit (suc (suc (suc (suc (suc (suc zero)))))) rest h = codes-cons "6" rest
codes-digit (suc (suc (suc (suc (suc (suc (suc zero))))))) rest h = codes-cons "7" rest
codes-digit (suc (suc (suc (suc (suc (suc (suc (suc zero)))))))) rest h = codes-cons "8" rest
codes-digit (suc (suc (suc (suc (suc (suc (suc (suc (suc zero))))))))) rest h = codes-cons "9" rest
codes-digit (suc (suc (suc (suc (suc (suc (suc (suc (suc (suc k)))))))))) rest h =
    absurd (omega arith)

parse_digits_next :
    (acc k : ℕ) (cs : List ℕ)
    → k < 10
    → parse_digits acc ((b'0' + k) ∷ cs) ≡ parse_digits (acc * 10 + k) cs
unfolding parse_digits
parse_digits_next acc k cs h = ground arith

parse_digits-show_from :
    (fuel n : ℕ) (rest : String)
    → n < fuel
    → parse_digits 0 (codes (show_from fuel n rest)) ≡ parse_digits n (codes rest)
unfolding show_from
parse_digits-show_from zero n rest h = absurd (omega arith)
parse_digits-show_from (suc fuel) n rest h =
    let last = digit (n % 10) ++ rest in
    let here = codes-digit (n % 10) rest (omega arith) in
    elim (Bool-cases (ltb n 10)) [
      | inl small ↦
          rw (small, here)
            (parse_digits_next 0 (n % 10) (codes rest) (omega arith)
              ∙ ap (λ m. parse_digits m (codes rest)) (ground arith))
      | inr large ↦ rw large (
          parse_digits-show_from fuel (n / 10) last (ground arith)
          ∙ (ap (parse_digits (n / 10)) here
              ∙ (parse_digits_next (n / 10) (n % 10) (codes rest) (omega arith)
                  ∙ ap (λ m. parse_digits m (codes rest)) (omega arith))))
    ]

AllDigits-show_from :
    (fuel n : ℕ) (rest : String)
    → AllDigits (codes rest)
    → AllDigits (codes (show_from fuel n rest))
unfolding show_from
AllDigits-show_from zero n rest h = h
AllDigits-show_from (suc fuel) n rest h =
    let last = digit (n % 10) ++ rest in
    let here : AllDigits (codes last) =
      rw (codes-digit (n % 10) rest (omega arith)) (ground arith, h) in
    elim (Bool-cases (ltb n 10)) [
      | inl small ↦ rw small here
      | inr large ↦ rw large (AllDigits-show_from fuel (n / 10) last here)
    ]

trim_left-Unspaced : (cs : List ℕ) → Unspaced cs → trim_left cs ≡ cs
unfolding trim_left
trim_left-Unspaced [] _ = refl
trim_left-Unspaced (c ∷ cs) (h, _) = rw h refl

Unspaced-reverse : (cs : List ℕ) → Unspaced cs → Unspaced (reverse cs)
Unspaced-reverse cs h =
    All-mem (λ c. is_space c ≡ false) (reverse cs)
      λ c m. forall_mem-All (λ x. is_space x ≡ false) (λ x. hlevel) cs h c (mem-reverse.0 m)

trim_space-Unspaced : (cs : List ℕ) → Unspaced cs → trim_space cs ≡ cs
unfolding trim_space
trim_space-Unspaced cs h =
    ap (λ l. reverse (trim_left (reverse l))) (trim_left-Unspaced cs h)
    ∙ (ap reverse (trim_left-Unspaced (reverse cs) (Unspaced-reverse cs h)) ∙ reverse-reverse cs)

digit_unspaced : (c : ℕ) → is_digit c ≡ true → is_space c ≡ false
unfolding is_space
digit_unspaced c h = ground arith

-- The numeral is read as the number.
parse_number-show : (n : ℕ) → parse_digits 0 (codes (show_ℕ n)) ≡ some n
unfolding show_ℕ parse_digits codes
parse_number-show n = parse_digits-show_from (suc n) n "" (omega arith)

AllDigits-show : (n : ℕ) → AllDigits (codes (show_ℕ n))
unfolding show_ℕ codes
AllDigits-show n = AllDigits-show_from (suc n) n "" tt

-- A numeral is not empty: of no digits 0 is read, and 0 has one.
parse_positive :
    (cs : List ℕ) (n : ℕ)
    → AllDigits cs
    → cs ≢ []
    → parse_digits 0 cs ≡ some n
    → n < 2 ^ 63
    → parse_int cs ≡ some (pos n)
unfolding parse_int
parse_positive [] n h e p fits = absurd (e refl)
parse_positive (c ∷ cs) n (h, _) e p fits = ground (arith, p)

parse_negative :
    (cs : List ℕ) (n : ℕ)
    → cs ≢ []
    → parse_digits 0 cs ≡ some (suc n)
    → suc n ≤ 2 ^ 63
    → parse_int (b'-' ∷ cs) ≡ some (negsuc n)
unfolding parse_int
parse_negative [] n e p fits = absurd (e refl)
parse_negative (c ∷ cs) n e p fits = rw p (ground arith)

show-ne-nil : (n : ℕ) → codes (show_ℕ n) ≢ []
unfolding show_ℕ show_from codes parse_digits
show-ne-nil zero e = cons-ne-nil b'0' [] e
show-ne-nil (suc n) e =
    let none_read : some 0 ≡ some (suc n) =
      sym (ap (parse_digits 0) e) ∙ parse_number-show (suc n) in
    absurd (ground (arith, some-injective 0 (suc n) none_read))

trim_space-show : (n : ℕ) → trim_space (codes (show_ℕ n)) ≡ codes (show_ℕ n)
trim_space-show n =
    trim_space-Unspaced _ (All-imp (λ c. is_digit c ≡ true) _ digit_unspaced _ (AllDigits-show n))

codes-show_minus : (n : ℕ) → codes (show_ℤ (negsuc n)) ≡ b'-' ∷ codes (show_ℕ (suc n))
unfolding show_ℤ
codes-show_minus n = codes-cons "-" (show_ℕ (suc n))

trim_space-minus : (n : ℕ) → trim_space (b'-' ∷ codes (show_ℕ n)) ≡ b'-' ∷ codes (show_ℕ n)
unfolding is_space
trim_space-minus n =
    trim_space-Unspaced _
      (refl, All-imp (λ c. is_digit c ≡ true) _ digit_unspaced _ (AllDigits-show n))

-- The value of `retention.ms` that is the decimal text of a 64-bit integer is read as that integer,
-- the least and the greatest of them and -1 included.
pub retention_ms-show_ℤ : (z : ℤ) → IsI64 z → retention_ms (some (show_ℤ z)) ≡ z
unfolding retention_ms show_ℤ
retention_ms-show_ℤ (pos n) h =
    let read =
      parse_positive (codes (show_ℕ n)) n (AllDigits-show n) (show-ne-nil n) (parse_number-show n)
        h.0 in
    ap (or_zero (negsuc 0)) (ap parse_int (trim_space-show n) ∙ read)
retention_ms-show_ℤ (negsuc n) h =
    let read =
      parse_negative (codes (show_ℕ (suc n))) n (show-ne-nil (suc n)) (parse_number-show (suc n))
        h.1 in
    ap (or_zero (negsuc 0)) (
      ap (λ l. parse_int (trim_space l)) (codes-show_minus n)
      ∙ (ap parse_int (trim_space-minus (suc n)) ∙ read))
