-- ===== src/Command/Refusal.antt =====
-- A live collection under `--require-readonly`.
use Prim.Native.Nat.{◌<◌}
use Prim.Native.Char.{Char}
use Prim.Native.String.{String, ◌++◌}
use brod_cli.Base.{
  true, false, Bool-cases, sym, ◌⊎◌, ◌≡◌, refl, ◌∙◌, inl, inr, List, [], ◌∷◌, arith, length, some,
}
use brod_cli.Base.Float.{Float}
use brod_cli.Kafka.ReadOnly.{AclResult, ReadOnlyCheck, check_read_only}
use brod_cli.Kafka.Rights.{total_excess, all_answered, check_read_only-total_excess}
use brod_cli.Kafka.Admin.{Admin}
use brod_cli.Kafka.Reads.{probe_rights}
use brod_cli.Kafka.Connect.{Dialer, connect}
use brod_cli.Command.Words.{runes, trim}
use brod_cli.Command.World.{System}
use brod_cli.Command.Live.{
  ConnectFlags, read_only_banner, config_of, verdict, judged, enforce_read_only, use_client,
  with_bootstrap, connect_and_collect,
}

module _ (quote : String → String) (env : String → String) {S : Type 0} (os : System S)
    (d : Dialer S) (a : Admin S) where
  -- The check ends with an error.
  abbrev pub Refuses : ReadOnlyCheck → S → Type 0
  Refuses chk u = (e : String) × (judged quote env os d a chk u ≡ (inl e, u))

  verdict_refuses :
      (vs : List String) (u : S)
      → 0 < length vs
      → (e : String) × (verdict quote env os d a vs u ≡ (inl e, u))
  unfolding verdict
  verdict_refuses [] u h = absurd (omega arith)
  verdict_refuses (v ∷ vs) u h = (_, refl)

  judged-Refuses :
      (results : List AclResult) (u : S)
      → all_answered results ≡ true
      → 0 < total_excess results
      → Refuses (check_read_only quote (some results)) u
  unfolding judged
  judged-Refuses results u full some_excess =
      let (count, sup) = check_read_only-total_excess quote results in
      rw (sup ∙ full)
        (verdict_refuses (check_read_only quote (some results)).violations u (omega arith))

  enforce_refuses :
      (results : List AclResult) (t u : S)
      → a.describe_acls t ≡ (inr results, u)
      → all_answered results ≡ true
      → 0 < total_excess results
      → (e : String) × (enforce_read_only quote env os d a t ≡ (inl e, u))
  unfolding enforce_read_only probe_rights
  enforce_refuses results t u reply full some_excess =
      let (e, p) = judged-Refuses results u full some_excess in (e, rw reply p)

  verdict_passes :
      (vs : List String) (u w : S) → verdict quote env os d a vs u ≡ (inr tt, w) → length vs ≡ 0
  unfolding verdict
  verdict_passes [] u w e = refl
  verdict_passes (v ∷ vs) u w e = cc

  -- If the check under `--require-readonly` passes, then the request for the rights failed, or one
  -- of its replies did, or no reply lists a grant that the
  -- probe flags: an allowed ALL, WRITE, ALTER, ALTER_CONFIGS, DELETE or CREATE, or READ of a topic.
  pub enforce_read_only-total_excess :
      (results : List AclResult) (t u w : S)
      → a.describe_acls t ≡ (inr results, u)
      → enforce_read_only quote env os d a t ≡ (inr tt, w)
      → (all_answered results ≡ false) ⊎ (total_excess results ≡ 0)
  unfolding enforce_read_only probe_rights judged
  enforce_read_only-total_excess results t u w reply passed =
      let chk = check_read_only quote (some results) in
      let (count, sup) = check_read_only-total_excess quote results in
      let judged_here : judged quote env os d a chk u ≡ (inr tt, w) = rw reply at passed in
      elim (Bool-cases chk.supported) [
        | inl known ↦
            let passes : verdict quote env os d a chk.violations u ≡ (inr tt, w) =
              rw known at judged_here in
            inr (sym count ∙ verdict_passes chk.violations u w passes)
        | inr unknown ↦ inl (sym sup ∙ unknown)
      ]

  module _ (F : Type 0) ⦃f : Float F⦄ (cf : ConnectFlags) where
    -- Under `--require-readonly`, if the client connects and the cluster lists, in replies none of
    -- which failed, at least one grant that the probe flags (an allowed ALL, WRITE, ALTER,
    -- ALTER_CONFIGS, DELETE or CREATE, or READ of a topic), then the collection ends with an error,
    -- and the state is the one after that probe with the client closed: nothing of the cluster is
    -- read.
    pub connect_and_collect-total_excess :
        (c : Char) (cs : List Char) (results : List AclResult) (s t u : S)
        → cf.require_read_only ≡ true
        → trim (runes cf.bootstrap) ≡ c ∷ cs
        → connect quote env d (config_of cf) (os.note ("  " ++ (read_only_banner ++ "\n")) s)
          ≡ (inr tt, t)
        → a.describe_acls t ≡ (inr results, u)
        → all_answered results ≡ true
        → 0 < total_excess results
        → (e : String) × (connect_and_collect quote env os d a {F = F} cf s ≡ (inl e, d.close u))
    unfolding connect_and_collect with_bootstrap use_client
    connect_and_collect-total_excess c cs results s t u required given connected reply full
          some_excess =
        let (e, p) = enforce_refuses results t u reply full some_excess in
        (e, rw (given, connected, required, p) refl)
