-- ===== src/Kafka/ReadOnly.antt =====
-- internal/kafka/readonly.go: the read-only credential probe behind `--require-readonly`.
use Prim.Native.String.{String, ◌++◌}
use text.Mathlib.Text.{◌==◌ as str_eq}
use brod_cli.Base.{Bool, true, false, not, Option, none, some, List, [], ◌∷◌, foldl, if◌then◌else◌}
use mathlib.Core.List.{◌++◌ as append}

-- The operations of the library that the code names, and any other.
pub data Operation : Type 0 where
  op_all op_write op_alter op_alter_configs op_delete op_create op_read op_other : Operation

-- `type_name` is the library's name of the resource type.
pub record DescribedAcl : Type 0 where
  pub is_topic : Bool
  pub type_name : String
  pub name : String
  pub operation : Operation
  pub is_allow : Bool

-- The reply for one filter.
pub record AclResult : Type 0 where
  pub failed : Bool
  pub described : List DescribedAcl

pub record ReadOnlyCheck : Type 0 where
  pub supported : Bool
  pub violations : List String

-- `quote` is the verb `%q`.
module _ (quote : String → String) where
  unfoldable pub grant_text : Operation → Bool → String → String
  grant_text op_all is_topic res = "ALL granted on " ++ (res ++ " (includes write+consume)")
  grant_text op_write is_topic res = "WRITE granted on " ++ res
  grant_text op_alter is_topic res = "ALTER granted on " ++ res
  grant_text op_alter_configs is_topic res = "ALTER granted on " ++ res
  grant_text op_delete is_topic res = "DELETE granted on " ++ res
  grant_text op_create is_topic res = "CREATE granted on " ++ res
  grant_text op_read true res =
      "topic READ granted on " ++ (res ++ " (permits consuming message payloads)")
  grant_text op_read false res = ""
  grant_text op_other is_topic res = ""

  unfoldable pub writeish_violation : DescribedAcl → String
  writeish_violation a = grant_text a.operation a.is_topic (a.type_name ++ " " ++ quote a.name)

  -- The body of the inner loop.
  unfoldable pub check_acl : ReadOnlyCheck → DescribedAcl → ReadOnlyCheck
  check_acl chk acl =
      if not acl.is_allow
      then chk
      else let v = writeish_violation acl in
        if str_eq v "" then chk else record chk { violations = append chk.violations (v ∷ []) }

  -- The body of the outer loop.
  unfoldable pub check_result : ReadOnlyCheck → AclResult → ReadOnlyCheck
  check_result chk res =
      if res.failed then record chk { supported = false } else foldl check_acl chk res.described

  -- The reply of `DescribeACLs` is `none` where the request fails.
  unfoldable pub check_read_only : Option (List AclResult) → ReadOnlyCheck
  check_read_only none = record { supported = false; violations = [] }
  check_read_only (some results) =
      foldl check_result (record { supported = true; violations = [] }) results
