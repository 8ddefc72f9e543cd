-- ===== src/Examples/Probes.antt =====
-- The read-only probe on a small reply.
use Prim.Native.String.{String, ◌++◌}
use brod_cli.Base.{◌≡◌, refl, true, false, some, List, [], ◌∷◌, length}
use brod_cli.Kafka.ReadOnly.{
  DescribedAcl, AclResult, op_read, op_alter_configs, op_other, grant_text, writeish_violation,
  check_acl, check_result, check_read_only,
}
use brod_cli.Kafka.Rights.{total_excess, all_answered, check_read_only-total_excess}

abbrev quoted : String → String
quoted s = "\"" ++ s ++ "\""

abbrev read_topic : DescribedAcl
read_topic = record {
  is_topic = true;
  type_name = "TOPIC";
  name = "orders";
  operation = op_read;
  is_allow = true;
}

abbrev replies : List AclResult
replies =
    record {
      failed = false;
      described =
          read_topic
          ∷ record read_topic { is_topic = false; type_name = "GROUP" }
          ∷ record read_topic { operation = op_alter_configs; is_allow = false }
          ∷ record read_topic { operation = op_other }
          ∷ [];
    }
    ∷ record { failed = true; described = [] }
    ∷ []

-- A reply that failed leaves the violations of the others in the outcome.
partial : check_read_only quoted (some replies) ≡ record {
  supported = false;
  violations = "topic READ granted on TOPIC \"orders\" (permits consuming message payloads)" ∷ [];
}
unfolding check_read_only check_result check_acl writeish_violation grant_text
partial = refl

check_read_only-total_excess_example :
    (length (check_read_only quoted (some replies)).violations ≡ total_excess replies)
    × ((check_read_only quoted (some replies)).supported ≡ all_answered replies)
check_read_only-total_excess_example = check_read_only-total_excess quoted replies
