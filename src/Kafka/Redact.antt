-- ===== src/Kafka/Redact.antt =====
-- What `redactCreds` leaves of a secret, and the credentials of a mechanism.
use Prim.Native.Nat.{◌-◌}
use Prim.Native.Char.{Char, code}
use Prim.Native.String.{String, ◌++◌}
use text.Mathlib.TextLemmas.{cons-append, nil-append}
use text.Mathlib.Text.{◌==◌ as str_eq}
use mathlib.Core.Path.{subst}
use brod_cli.Base.{
  ℕ, zero, suc, Bool, true, false, not, ◌&&◌, ◌||◌, ◌==◌, ◌⊎◌, inl, inr, ◌≡◌, refl, sym, ap, ◌∙◌,
  arith, Bool-cases,
}
use brod_cli.Kafka.Connect.{
  SaslConfig, env_pass, begins, size, replace_from, replace_all, redact_secret, redact_creds,
}

-- `strings.Contains(s, p)`
abbrev pub contains : String → String → Bool
contains String.[] p = begins p ""
contains (String.◌∷◌ c s) p = begins p (String.◌∷◌ c s) || contains s p

-- The text is free of asterisks.
abbrev pub starless : String → Bool
starless String.[] = true
starless (String.◌∷◌ c s) = not (code c == b'*') && starless s

-- A secret that is there, and shares no character with what replaces it.
abbrev pub IsSecret : String → Type 0
IsSecret s = (str_eq s "" ≡ false) × (starless s ≡ true)

stars : (s : String) → String.◌∷◌ "*" (String.◌∷◌ "*" (String.◌∷◌ "*" s)) ≡ "***" ++ s
stars s = sym (
    ap (λ u. u) (cons-append "*" "**" s)
    ∙ ap (String.◌∷◌ "*") (
        cons-append "*" "*" s
        ∙ ap (String.◌∷◌ "*") (cons-append "*" "" s ∙ ap (String.◌∷◌ "*") (nil-append s))))

begins-stars :
    (c : Char) (p s : String)
    → (not (code c == b'*') && starless p) ≡ true
    → begins (String.◌∷◌ c p) ("***" ++ s) ≡ false
begins-stars c p s h = rw (← stars s) (ground arith)

begins-replace :
    (old p s : String)
    → starless p ≡ true
    → begins p (replace_from old "***" zero s) ≡ true
    → begins p s ≡ true
unfolding replace_from
begins-replace old String.[] s h e = refl
begins-replace old (String.◌∷◌ c p) String.[] h e = e
begins-replace old (String.◌∷◌ c p) (String.◌∷◌ d s) h e =
    elim (Bool-cases (begins old (String.◌∷◌ d s))) [
      | inl found ↦
          let rest = replace_from old "***" (size old - 1) s in
          ground (arith, begins-stars c p rest h)
      | inr other ↦ ground (arith, begins-replace old p s)
    ]

contains-stars :
    (c : Char) (p s : String)
    → (not (code c == b'*') && starless p) ≡ true
    → contains ("***" ++ s) (String.◌∷◌ c p) ≡ contains s (String.◌∷◌ c p)
contains-stars c p s h = rw (← stars s) (ground arith)

-- A replacement by asterisks brings no occurrence of another secret.
contains-replace :
    (old : String) (c : Char) (p : String) (skip : ℕ) (s : String)
    → starless (String.◌∷◌ c p) ≡ true
    → contains s (String.◌∷◌ c p) ≡ false
    → contains (replace_from old "***" skip s) (String.◌∷◌ c p) ≡ false
unfolding replace_from
contains-replace old c p skip String.[] h e = refl
contains-replace old c p (suc skip) (String.◌∷◌ d s) h e =
    contains-replace old c p skip s h (ground arith)
contains-replace old c p zero (String.◌∷◌ d s) h e =
    elim (Bool-cases (begins old (String.◌∷◌ d s))) [
      | inl found ↦
          let rest = replace_from old "***" (size old - 1) s in
          let after = contains-replace old c p (size old - 1) s h (ground arith) in
          rw found (contains-stars c p rest h ∙ after)
      | inr other ↦
          let after = contains-replace old c p zero s h (ground arith) in
          let back = begins-replace old (String.◌∷◌ c p) (String.◌∷◌ d s) h in
          ground (arith, after, back)
    ]

-- A replacement of a secret leaves no occurrence of it.
contains-replaced :
    (c : Char) (p : String) (skip : ℕ) (s : String)
    → starless (String.◌∷◌ c p) ≡ true
    → contains (replace_from (String.◌∷◌ c p) "***" skip s) (String.◌∷◌ c p) ≡ false
unfolding replace_from
contains-replaced c p skip String.[] h = refl
contains-replaced c p (suc skip) (String.◌∷◌ d s) h = contains-replaced c p skip s h
contains-replaced c p zero (String.◌∷◌ d s) h =
    let old = String.◌∷◌ c p in
    elim (Bool-cases (begins old (String.◌∷◌ d s))) [
      | inl found ↦
          let rest = replace_from old "***" (size old - 1) s in
          rw found (contains-stars c p rest h ∙ contains-replaced c p (size old - 1) s h)
      | inr other ↦
          let after = contains-replaced c p zero s h in
          let back = begins-replace old old (String.◌∷◌ d s) h in ground (arith, after, back)
    ]

IsSecret-contains :
    (secret : String)
    → IsSecret secret
    → ((msg : String) → contains (redact_secret msg secret) secret ≡ false)
      × ((msg other : String)
          → contains msg secret ≡ false
          → contains (redact_secret msg other) secret ≡ false)
unfolding redact_secret replace_all
IsSecret-contains String.[] (some_text, h) = ground arith
IsSecret-contains (String.◌∷◌ c p) (some_text, h) = (
  (λ msg. rw some_text (contains-replaced c p zero msg h)),
  λ msg other clean. elim (Bool-cases (str_eq other "")) [
    | inl e ↦ rw e clean
    | inr e ↦ rw e (contains-replace other c p zero msg h clean)
  ],
)

-- An error that `redactCreds` has scrubbed contains neither the password of the configuration nor
-- the one of the environment, of those that are not empty and have no asterisk in them.
pub redact_creds-IsSecret :
    (env : String → String) (err : String) (s : SaslConfig) (secret : String)
    → (secret ≡ s.pass) ⊎ (secret ≡ env env_pass)
    → IsSecret secret
    → contains (redact_creds env err s) secret ≡ false
unfolding redact_creds
redact_creds-IsSecret env err s secret (inl given) ok =
    let first = (IsSecret-contains secret ok).0 err in
    (IsSecret-contains secret ok).1 (redact_secret err s.pass) (env env_pass)
      (subst (λ p. contains (redact_secret err p) secret ≡ false) given first)
redact_creds-IsSecret env err s secret (inr given) ok =
    subst (λ p. contains (redact_secret (redact_secret err s.pass) p) secret ≡ false) given
      ((IsSecret-contains secret ok).0 (redact_secret err s.pass))
