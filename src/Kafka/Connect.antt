-- ===== src/Kafka/Connect.antt =====
-- internal/kafka/client.go: the connection, its credentials and the redaction of errors.
use Prim.Native.Nat.{◌-◌}
use Prim.Native.Char.{code}
use Prim.Native.String.{String, ◌++◌}
use text.Mathlib.Text.{◌==◌ as str_eq}
use mathlib.Core.List.{◌++◌ as append}
use brod_cli.Base.{
  ℕ, zero, suc, Bool, true, false, ◌&&◌, ◌||◌, ◌==◌, Option, none, some, ◌⊎◌, inl, inr, List, [],
  ◌∷◌, foldl, if◌then◌else◌,
}
use brod_cli.Base.Int.{ℤ, pos, ltb_ℤ}
use brod_cli.Collect.Types.{Call}

-- `SASLMechanism` is a text.
pub record SaslConfig : Type 0 where
  pub mechanism : String
  pub user : String
  pub pass : String

-- `dial_timeout` is in nanoseconds.
pub record Config : Type 0 where
  pub bootstrap : List String
  pub tls : Bool
  pub sasl : SaslConfig
  pub dial_timeout : ℤ

-- The mechanisms of the library that the code builds.
pub data Mechanism : Type 0 where
  plain scram_sha_256 scram_sha_512 : (user pass : String) → Mechanism

-- The options of the library that the code passes. `dial_tls` is TLS of version 1.2 at least.
pub data ClientOption : Type 0 where
  seed_brokers : List String → ClientOption
  client_id : String → ClientOption
  dial_timeout : ℤ → ClientOption
  dial_tls : ClientOption
  sasl : Mechanism → ClientOption

abbrev pub default_dial_timeout : ℤ
default_dial_timeout = pos 10_000_000_000

abbrev pub env_user : String
env_user = "BROD_KAFKA_USER"

abbrev pub env_pass : String
env_pass = "BROD_KAFKA_PASS"

-- A flag, or the environment variable where it is empty.
abbrev pub or_env : (String → String) → String → String → String
or_env env value name = if str_eq value "" then env name else value

-- The switch on the mechanism.
unfoldable pub mechanism_of :
    (String → String) → String → String → String → String ⊎ Option Mechanism
mechanism_of quote name user pass =
    if str_eq name "plain"
    then inr (some (plain user pass))
    else if str_eq name "scram-sha-256"
    then inr (some (scram_sha_256 user pass))
    else if str_eq name "scram-sha-512"
    then inr (some (scram_sha_512 user pass))
    else inl (
        "kafka: unsupported SASL mechanism "
        ++ (quote name ++ " (want plain|scram-sha-256|scram-sha-512)"))

-- `quote` is the verb `%q`, `env` is `os.Getenv`.
module _ (quote : String → String) (env : String → String) where
  unfoldable pub sasl_mechanism : SaslConfig → String ⊎ Option Mechanism
  sasl_mechanism s =
      let user = or_env env s.user env_user in
      let pass = or_env env s.pass env_pass in
      if str_eq s.mechanism ""
      then inr none
      else if str_eq user "" || str_eq pass ""
      then inl (
          "kafka: SASL "
          ++ (s.mechanism
              ++ " requires a user and pass (flags or BROD_KAFKA_USER/BROD_KAFKA_PASS env)"))
      else mechanism_of quote s.mechanism user pass

-- `strings.HasPrefix`, character by character.
abbrev pub begins : String → String → Bool
begins String.[] s = true
begins (String.◌∷◌ c p) String.[] = false
begins (String.◌∷◌ c p) (String.◌∷◌ d s) = code c == code d && begins p s

abbrev pub size : String → ℕ
size String.[] = 0
size (String.◌∷◌ c s) = suc (size s)

-- `strings.ReplaceAll(s, old, new)` of a text `old` that is not empty, with `skip` characters of an
-- occurrence still to leave out.
unfoldable pub replace_from : String → String → ℕ → String → String
replace_from old new skip String.[] = ""
replace_from old new (suc skip) (String.◌∷◌ c s) = replace_from old new skip s
replace_from old new zero (String.◌∷◌ c s) =
    let found = new ++ replace_from old new (size old - 1) s in
    let other = String.◌∷◌ c (replace_from old new zero s) in
    if begins old (String.◌∷◌ c s) then found else other

unfoldable pub replace_all : String → String → String → String
replace_all s old new = replace_from old new zero s

-- The body of the loop over the secrets.
unfoldable pub redact_secret : String → String → String
redact_secret msg secret = if str_eq secret "" then msg else replace_all msg secret "***"

unfoldable pub redact_creds : (String → String) → String → SaslConfig → String
redact_creds env err s = foldl redact_secret err (s.pass ∷ env env_pass ∷ [])

-- The calls of the library by which `Connect` makes and tests a client.
pub record Dialer (S : Type 0) : Type 0 where
  pub new_client : List ClientOption → Call S String (Unit {0})
  pub broker_metadata : Call S String (Unit {0})
  pub close : S → S

unfoldable pub client_options : Config → Option Mechanism → List ClientOption
client_options cfg mech =
    append
      (seed_brokers cfg.bootstrap
        ∷ client_id "brod"
        ∷ dial_timeout
            (if ltb_ℤ (pos 0) cfg.dial_timeout then cfg.dial_timeout else default_dial_timeout)
        ∷ [])
      (append (if cfg.tls then dial_tls ∷ [] else [])
        (elim mech [ none ↦ [] | some m ↦ sasl m ∷ [] ]))

abbrev pub is_empty : {A : Type 0} → List A → Bool
is_empty [] = true
is_empty (x ∷ xs) = false

module _ (quote : String → String) (env : String → String) {S : Type 0} (d : Dialer S) where
  -- The end of `Connect`: a client that does not reach the cluster is closed again.
  unfoldable pub verified : SaslConfig → (String ⊎ Unit {0}) × S → (String ⊎ Unit {0}) × S
  verified s (inl e, t) =
      (inl ("kafka: connecting to cluster: " ++ redact_creds env e s), d.close t)
  verified s (inr c, t) = (inr c, t)

  abbrev pub dialled : SaslConfig → (String ⊎ Unit {0}) × S → (String ⊎ Unit {0}) × S
  dialled s (inl e, t) = (inl ("kafka: building client: " ++ e), t)
  dialled s (inr c, t) = verified s (d.broker_metadata t)

  -- What follows the test of the bootstrap servers, with the mechanism or its error.
  abbrev pub dial : Config → String ⊎ Option Mechanism → Call S String (Unit {0})
  dial cfg (inl e) t = (inl e, t)
  dial cfg (inr mech) t = dialled cfg.sasl (d.new_client (client_options cfg mech) t)

  unfoldable pub connect : Config → Call S String (Unit {0})
  connect cfg t =
      if is_empty cfg.bootstrap
      then (inl "kafka: no bootstrap servers given", t)
      else dial cfg (sasl_mechanism quote env cfg.sasl) t
