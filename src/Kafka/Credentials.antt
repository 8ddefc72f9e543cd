-- ===== src/Kafka/Credentials.antt =====
-- The credentials that `saslMechanism` passes to the library.
use Prim.Native.String.{String, ◌++◌}
use text.Mathlib.Text.{◌==◌ as str_eq}
use text.Mathlib.TextEquality.{eq_iff}
use mathlib.Core.Path.{subst}
use brod_cli.Base.{
  Bool, true, false, ◌||◌, ◌≡◌, refl, sym, ap, ◌∙◌, ◌⊎◌, inl, inr, Option, none, some, arith,
  Bool-cases, if◌then◌else◌,
}
use brod_cli.Kafka.Connect.{
  SaslConfig, Mechanism, plain, scram_sha_256, scram_sha_512, env_user, env_pass, or_env,
  mechanism_of, sasl_mechanism,
}

abbrev pub user_of : Mechanism → String
user_of (plain user pass) = user
user_of (scram_sha_256 user pass) = user
user_of (scram_sha_512 user pass) = user

abbrev pub pass_of : Mechanism → String
pass_of (plain user pass) = pass
pass_of (scram_sha_256 user pass) = pass
pass_of (scram_sha_512 user pass) = pass

abbrev pub name_of : Mechanism → String
name_of (plain user pass) = "plain"
name_of (scram_sha_256 user pass) = "scram-sha-256"
name_of (scram_sha_512 user pass) = "scram-sha-512"

-- The mechanism has the name, the user and the password.
abbrev IsOf : String → String → String → Mechanism → Type 0
IsOf name user pass m = (name_of m ≡ name) × ((user_of m ≡ user) × (pass_of m ≡ pass))

-- The value is the one given or, where that is empty, the other one.
abbrev pub Chosen : String → String → String → Type 0
Chosen given other value = ((¬ (given ≡ "")) × (value ≡ given)) ⊎ ((given ≡ "") × (value ≡ other))

apart : (s : String) → str_eq s "" ≡ false → ¬ (s ≡ "")
apart s h e = let same = (eq_iff s "").1 e in ground arith

or_env-Chosen :
    (env : String → String) (given name : String) → Chosen given (env name) (or_env env given name)
or_env-Chosen env given name = elim (Bool-cases (str_eq given "")) [
  | inl empty ↦ rw empty (inr ((eq_iff given "").0 empty, refl))
  | inr there ↦ rw there (inl (apart given there, refl))
]

-- Where the result is a mechanism, it has them.
abbrev Built : String → String → String → String ⊎ Option Mechanism → Type 0
Built name user pass (inl e) = Unit
Built name user pass (inr none) = Unit
Built name user pass (inr (some m)) = IsOf name user pass m

if_cases :
    {A : Type 0} (P : A → Type 0) (b : Bool) (x y : A)
    → (b ≡ true → P x)
    → (b ≡ false → P y)
    → P (if b then x else y)
if_cases P true x y h k = h refl
if_cases P false x y h k = k refl

mechanism_of-Built :
    (quote : String → String) (name user pass : String)
    → Built name user pass (mechanism_of quote name user pass)
unfolding mechanism_of
mechanism_of-Built quote name user pass =
    let P = Built name user pass in
    if_cases P (str_eq name "plain") (inr (some (plain user pass))) _
      (λ e. (sym ((eq_iff name "plain").0 e), (refl, refl)))
      (λ _.
        if_cases P (str_eq name "scram-sha-256") (inr (some (scram_sha_256 user pass))) _
          (λ e. (sym ((eq_iff name "scram-sha-256").0 e), (refl, refl)))
          (λ _.
            if_cases P (str_eq name "scram-sha-512") (inr (some (scram_sha_512 user pass)))
              (inl (
                "kafka: unsupported SASL mechanism "
                ++ (quote name ++ " (want plain|scram-sha-256|scram-sha-512)")))
              (λ e. (sym ((eq_iff name "scram-sha-512").0 e), (refl, refl))) (λ _. tt)))

module _ (quote : String → String) (env : String → String) where
  -- If a mechanism is built, it is the one of the configured name, its user and password are those
  -- of the flags, or where the flag is empty those of the variables BROD_KAFKA_USER and
  -- BROD_KAFKA_PASS of the environment, and neither of them is empty.
  pub sasl_mechanism-IsOf :
      (s : SaslConfig) (m : Mechanism)
      → sasl_mechanism quote env s ≡ inr (some m)
      → (name_of m ≡ s.mechanism)
        × ((Chosen s.user (env "BROD_KAFKA_USER") (user_of m)
              × Chosen s.pass (env "BROD_KAFKA_PASS") (pass_of m))
            × ((¬ (user_of m ≡ "")) × (¬ (pass_of m ≡ ""))))
  unfolding sasl_mechanism
  sasl_mechanism-IsOf s m h =
      let user = or_env env s.user env_user in
      let pass = or_env env s.pass env_pass in
      let built = mechanism_of-Built quote s.mechanism user pass in
      elim (Bool-cases (str_eq s.mechanism "")) [
        | inl unset ↦ absurd (ground arith)
        | inr named ↦ elim (Bool-cases (str_eq user "" || str_eq pass "")) [
          | inl missing ↦ absurd (ground arith)
          | inr given ↦
              let same : mechanism_of quote s.mechanism user pass ≡ inr (some m) = ground arith in
              let (name, (u, p)) = subst (Built s.mechanism user pass) same built in
              (
                name,
                (
                  (
                    subst (Chosen s.user (env "BROD_KAFKA_USER")) (sym u)
                        (or_env-Chosen env s.user env_user),
                    subst (Chosen s.pass (env "BROD_KAFKA_PASS")) (sym p)
                        (or_env-Chosen env s.pass env_pass),
                  ),
                  (
                    apart (user_of m) (ap (λ z. str_eq z "") u ∙ ground arith),
                    apart (pass_of m) (ap (λ z. str_eq z "") p ∙ ground arith),
                  ),
                ),
              )
        ]
      ]
