-- ===== src/Rules/Billing.antt =====
-- Rules R1 and R8 share the Streams-internal topics between them.
use brod_cli.Base.{◌≡◌, ap, some, arith}
use brod_cli.Base.Float.{Float}
use brod_cli.Rules.Types.{Topic, Finding}
use brod_cli.Rules.Config.{EvalCtx, streams_internal_suffixes}
use brod_cli.Rules.Helpers.{is_streams_internal, match_suffix}
use brod_cli.Rules.DeadTopic.{r1_topic}
use brod_cli.Rules.Internal.{r8_topic}
use brod_cli.Rules.Guards.{r1_topic-eq-some, r8_topic-eq-some}

module _ {F : Type 0} ⦃f : Float F⦄ (ctx : EvalCtx F) where
  -- With the default suffixes, R1 and R8 never report the same topic name, whatever else the two
  -- topics of that name hold: an orphaned internal topic is not billed twice.
  pub r1_r8_disjoint :
      (t u : Topic F) (x y : Finding F)
      → ctx.cfg.r8.suffixes ≡ streams_internal_suffixes
      → r1_topic ctx t ≡ some x
      → r8_topic ctx u ≡ some y
      → ¬ (t.name ≡ u.name)
  unfolding is_streams_internal
  r1_r8_disjoint t u x y default e1 e8 same =
      let outside = (r1_topic-eq-some ctx t e1).1 in
      let inside = (r8_topic-eq-some ctx u e8).1 in
      ground (
        arith,
        ap (λ n. match_suffix n streams_internal_suffixes) same,
        ap (match_suffix u.name) default,
      )
