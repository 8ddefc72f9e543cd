-- ===== src/Command/World.antt =====
-- What cmd/brod asks of the operating system and of Go's library: streams, files, the clock, JSON.
use Prim.Native.String.{String}
use brod_cli.Base.{Bool, ◌⊎◌, inl, inr}
use brod_cli.Base.Int.{ℤ}
use brod_cli.Collect.Types.{Call}

-- The services of the system, in a state that the cluster's is part of. `read_file` and
-- `write_file` are those of package os, `read_stdin` reads to the end of the standard input, and
-- `write_out` is `os.Stdout.Write`. `print` and `note` write to the standard output and error,
-- and the code drops their errors. `with_timeout` and `cancel` are those of package context.
pub record System (S : Type 0) : Type 0 where
  pub read_file : String → Call S String String
  pub write_file : String → String → Call S String (Unit {0})
  pub stdin_piped : S → Bool
  pub read_stdin : Call S String String
  pub write_out : String → Call S String (Unit {0})
  pub print : String → S → S
  pub note : String → S → S
  pub now : S → ℤ × S
  pub sleep : ℤ → Call S String (Unit {0})
  pub with_timeout : ℤ → S → S
  pub cancel : S → S

-- A command ends with an error or with a panic of the rules engine.
pub data Failure : Type 0 where
  error : String → Failure
  panicked : Failure

-- The result of a call whose error the command returns.
abbrev pub to_failure : {S A : Type 0} → (String ⊎ A) × S → (Failure ⊎ A) × S
to_failure (inl e, s) = (inl (error e), s)
to_failure (inr a, s) = (inr a, s)

abbrev pub lift : {S A : Type 0} → Call S String A → Call S Failure A
lift m s = to_failure (m s)

-- A call that can not fail, of a value and a new state.
abbrev pub effect : {S E : Type 0} → (S → S) → Call S E (Unit {0})
effect f s = (inr tt, f s)

-- A deferred call runs whether the body fails or not.
abbrev pub deferred : {S E A : Type 0} → (S → S) → Call S E A → Call S E A
deferred cleanup m s = let (r, t) = m s in (r, cleanup t)
