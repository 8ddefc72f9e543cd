-- ===== src/Rules/ZombieGroup.antt =====
-- Rule R2, internal/rules/r2_zombie_group.go.
use Prim.Native.String.{String, ◌++◌}
use brod_cli.Base.{
  Bool, true, false, not, Option, none, some, List, [], ◌∷◌, map, ◌≡◌, refl, if◌then◌else◌,
}
use mathlib.Core.List.{filter_map}
use brod_cli.Base.Int.{pos, ltb_ℤ}
use brod_cli.Base.Text.{codes, trim_space, to_lower, same_codes, show_ℤ}
use brod_cli.Base.Float.{Float, nought}
use brod_cli.Rules.Types.{ConsumerGrp, Finding, Evidence, info, high}
use brod_cli.Rules.Config.{EvalCtx}

-- `strings.EqualFold(strings.TrimSpace(state), "Empty")`
unfoldable pub is_empty_state : String → Bool
unfolding codes trim_space to_lower same_codes
is_empty_state state = same_codes (map to_lower (trim_space (codes state))) (codes "empty")

module _ {F : Type 0} ⦃f : Float F⦄ where
  open f use {quote}

  unfoldable pub r2_finding : ConsumerGrp → Finding F
  r2_finding g = record {
    rule_id = "R2";
    rule_version = pos 1;
    title =
        "Zombie consumer group "
        ++ quote g.group_id
        ++ ": empty for "
        ++ show_ℤ g.last_commit_age_days
        ++ "d";
    severity = info;
    resource_key = "R2:" ++ g.group_id;
    evidence =
        ("state", Evidence.of_text "Empty")
        ∷ ("last_commit_age_days", Evidence.of_int g.last_commit_age_days)
        ∷ [];
    est_saving_eur = nought;
    basis =
        "hygiene finding — €0 savings; clears stale committed-offset state for a long-empty group";
    confidence = high;
    remediation = record {
      summary =
          "Delete the long-empty consumer group "
          ++ quote g.group_id
          ++ " (bundle into a cleanup PR).";
      kafka_configs_cmd = "kafka-consumer-groups --delete --group " ++ g.group_id;
      terraform_diff = "";
      strimzi_yaml = "";
      one_click = false;
    };
  }

  -- The body of the loop over the groups.
  unfoldable pub r2_group : EvalCtx F → ConsumerGrp → Option (Finding F)
  r2_group ctx g =
      if not (is_empty_state g.state)
      then none
      else if ltb_ℤ g.last_commit_age_days (pos 0)
      then none
      else if ltb_ℤ g.last_commit_age_days ctx.cfg.r2.min_empty_days
      then none
      else some (r2_finding g)

  unfoldable pub eval_r2 : EvalCtx F → List (Finding F)
  unfolding filter_map
  eval_r2 ctx = filter_map (r2_group ctx) ctx.snap.groups

spaced : is_empty_state " eMPTY\t" ≡ true
unfolding is_empty_state
spaced = refl
