-- ===== src/Command/Sources.antt =====
-- Where the snapshot of `scan` and `cost` comes from.
use Prim.Native.String.{String}
use text.Mathlib.Text.{◌==◌ as str_eq}
use text.Mathlib.TextEquality.{eq_iff}
use brod_cli.Base.{Bool, true, false, ◌≡◌, refl, ◌⊎◌, inl, inr, Bool-cases, arith}
use brod_cli.Base.Float.{Float}
use brod_cli.Collect.Types.{and_then, done}
use brod_cli.Kafka.Admin.{Admin}
use brod_cli.Kafka.Connect.{Dialer}
use brod_cli.Command.World.{System}
use brod_cli.Command.Main.{demo, piped, read_snapshot}
use brod_cli.Command.Services.{Library}

other : (s t : String) → str_eq s t ≡ false → ¬ (s ≡ t)
other s t h e = let same = (eq_iff s t).1 e in ground arith

module _ {F : Type 0} ⦃f : Float F⦄ (lib : Library F) (env : String → String) {S : Type 0}
    (os : System S) (d : Dialer S) (a : Admin S) where
  -- What a result of `readSnapshot` tells of its text: the demo's, a file's or the standard input's.
  abbrev pub IsTold : String → S → (String ⊎ (String × Bool)) × S → Type 0
  IsTold path s (inl e, t) = Unit
  IsTold path s (inr (text, true), t) = (path ≡ "") × (text ≡ lib.sample)
  IsTold path s (inr (text, false), t) =
      ((os.read_file path s ≡ (inr text, t)) × ((¬ (path ≡ "-")) × (¬ (path ≡ ""))))
      ⊎ ((os.read_stdin s ≡ (inr text, t)) × ((path ≡ "-") ⊎ (path ≡ "")))

  demo-IsTold : (path : String) (s t : S) → path ≡ "" → IsTold path s (demo lib env os d a t)
  unfolding demo
  demo-IsTold path s t e = elim (Bool-cases (str_eq lib.sample "")) [
    | inl missing ↦ rw missing tt
    | inr there ↦ rw there (e, refl)
  ]

  stdin-IsTold :
      (path : String) (s : S) (r : (String ⊎ String) × S)
      → os.read_stdin s ≡ r
      → (path ≡ "-") ⊎ (path ≡ "")
      → IsTold path s (and_then r (λ text. done (text, false)))
  stdin-IsTold path s (inl e, t) p named = tt
  stdin-IsTold path s (inr text, t) p named = inr (p, named)

  file-IsTold :
      (path : String) (s : S) (r : (String ⊎ String) × S)
      → os.read_file path s ≡ r
      → ¬ (path ≡ "-")
      → ¬ (path ≡ "")
      → IsTold path s (and_then r (λ text. done (text, false)))
  file-IsTold path s (inl e, t) p h k = tt
  file-IsTold path s (inr text, t) p h k = inl (p, (h, k))

  piped-IsTold :
      (path : String) (s : S) (r : (String ⊎ String) × S)
      → os.read_stdin s ≡ r
      → path ≡ ""
      → IsTold path s (and_then r (piped lib env os d a))
  unfolding piped
  piped-IsTold path s (inl e, t) p named = tt
  piped-IsTold path s (inr text, t) p named = elim (Bool-cases (str_eq text "")) [
    | inl empty ↦ rw empty (demo-IsTold path s t named)
    | inr some_text ↦ rw some_text (inr (p, inr named))
  ]

  -- A snapshot is marked as the demo only if no path is given and its text is the embedded one. A
  -- text that is not marked is that of the file of the path, if a path other than `-` is given,
  -- or the whole of the standard input, if the path is `-` or none is given.
  pub read_snapshot-IsTold :
      (path : String) (s : S) → IsTold path s (read_snapshot lib env os d a path s)
  unfolding read_snapshot
  read_snapshot-IsTold path s = elim (Bool-cases (str_eq path "-")) [
    | inl dash ↦ rw dash (stdin-IsTold path s _ refl (inl ((eq_iff path "-").0 dash)))
    | inr no_dash ↦ elim (Bool-cases (str_eq path "")) [
      | inr named ↦
          rw (no_dash, named)
            (file-IsTold path s _ refl (other path "-" no_dash) (other path "" named))
      | inl unnamed ↦
          let none_given = (eq_iff path "").0 unnamed in
          elim (Bool-cases (os.stdin_piped s)) [
            | inl e ↦ rw (no_dash, unnamed, e) (piped-IsTold path s _ refl none_given)
            | inr e ↦ rw (no_dash, unnamed, e) (demo-IsTold path s s none_given)
          ]
    ]
  ]
