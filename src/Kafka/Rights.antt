-- ===== src/Kafka/Rights.antt =====
-- What the probe finds.
use Prim.Native.Char.{Char}
use Prim.Native.String.{String, ◌++◌}
use Prim.Native.String.append
use Prim.Native.String.compare
use Prim.Native.Nat.{◌+◌}
use text.Mathlib.Text.{◌==◌ as str_eq}
use brod_cli.Base.{
  ℕ, suc, ◌≡◌, refl, ap, ◌∙◌, Bool, true, false, not, ◌&&◌, some, List, [], ◌∷◌, foldl, length,
  arith, Bool-cases, inl, inr, if◌then◌else◌,
}
use mathlib.Core.List.{◌++◌ as append}
use brod_cli.Kafka.ReadOnly.{
  Operation, op_all, op_write, op_alter, op_alter_configs, op_delete, op_create, op_read, op_other,
  DescribedAcl, AclResult, ReadOnlyCheck, grant_text, writeish_violation, check_acl, check_result,
  check_read_only,
}

-- ALL, WRITE, ALTER, ALTER_CONFIGS, DELETE and CREATE, and READ on a topic. No other operation.
abbrev pub exceeds : Operation → Bool → Bool
exceeds op_read is_topic = is_topic
exceeds op_other is_topic = false
exceeds _ is_topic = true

-- A text that goes on behind a character is not empty.
not_empty : (c : Char) (s t : String) → str_eq (String.◌∷◌ c s ++ t) "" ≡ false
not_empty c s t = ground (arith, append.cons c s t, compare.cons-nil c (s ++ t))

grant_text-exceeds :
    (quote : String → String) (op : Operation) (is_topic : Bool) (res : String)
    → str_eq (grant_text quote op is_topic res) "" ≡ not (exceeds op is_topic)
unfolding grant_text
grant_text-exceeds quote op_all t res = not_empty "A" "LL granted on " _
grant_text-exceeds quote op_write t res = not_empty "W" "RITE granted on " _
grant_text-exceeds quote op_alter t res = not_empty "A" "LTER granted on " _
grant_text-exceeds quote op_alter_configs t res = not_empty "A" "LTER granted on " _
grant_text-exceeds quote op_delete t res = not_empty "D" "ELETE granted on " _
grant_text-exceeds quote op_create t res = not_empty "C" "REATE granted on " _
grant_text-exceeds quote op_read true res = not_empty "t" "opic READ granted on " _
grant_text-exceeds quote op_read false res = refl
grant_text-exceeds quote op_other t res = refl

-- How many of the grants allow such an operation.
unfoldable pub excess : List DescribedAcl → ℕ
excess [] = 0
excess (a ∷ acls) =
    let rest = excess acls in
    if a.is_allow && exceeds a.operation a.is_topic then suc rest else rest

-- The same over the replies that did not fail.
unfoldable pub total_excess : List AclResult → ℕ
unfolding excess
total_excess [] = 0
total_excess (res ∷ results) =
    let rest = total_excess results in if res.failed then rest else excess res.described + rest

unfoldable pub all_answered : List AclResult → Bool
all_answered [] = true
all_answered (res ∷ results) = not res.failed && all_answered results

length-append_one : (xs : List String) (x : String) → length (append xs (x ∷ [])) ≡ suc (length xs)
length-append_one [] x = refl
length-append_one (y ∷ ys) x = ap suc (length-append_one ys x)

module _ (quote : String → String) where
  check_acl-exceeds :
      (chk : ReadOnlyCheck) (a : DescribedAcl)
      → (length (check_acl quote chk a).violations ≡ (
          if a.is_allow && exceeds a.operation a.is_topic
          then suc (length chk.violations)
          else length chk.violations))
        × ((check_acl quote chk a).supported ≡ chk.supported)
  unfolding check_acl writeish_violation
  check_acl-exceeds chk a =
      let text = writeish_violation quote a in
      let empty =
        grant_text-exceeds quote a.operation a.is_topic (a.type_name ++ " " ++ quote a.name) in
      ground (arith, empty, length-append_one chk.violations text)

  checks-excess :
      (chk : ReadOnlyCheck) (acls : List DescribedAcl)
      → (length (foldl (check_acl quote) chk acls).violations ≡ length chk.violations + excess acls)
        × ((foldl (check_acl quote) chk acls).supported ≡ chk.supported)
  unfolding excess
  checks-excess chk [] = (omega arith, refl)
  checks-excess chk (a ∷ acls) =
      let (one, same) = check_acl-exceeds chk a in
      let (more, same2) = checks-excess (check_acl quote chk a) acls in (ground arith, same2 ∙ same)

  results-excess :
      (chk : ReadOnlyCheck) (results : List AclResult)
      → (length (foldl (check_result quote) chk results).violations
          ≡ length chk.violations + total_excess results)
        × ((foldl (check_result quote) chk results).supported
            ≡ (chk.supported && all_answered results))
  unfolding total_excess all_answered check_result
  results-excess chk [] = (omega arith, ground arith)
  results-excess chk (res ∷ results) = elim (Bool-cases res.failed) [
    | inl failed ↦
        let (more, sup) = results-excess (record chk { supported = false }) results in
        rw failed (more, sup ∙ ground arith)
    | inr read ↦
        let (one, same) = checks-excess chk res.described in
        let (more, sup) = results-excess (foldl (check_acl quote) chk res.described) results in
        rw read (ground arith, ground arith)
  ]

  -- The probe lists as many violations as there are grants, in the replies that did not fail, that
  -- allow ALL, WRITE, ALTER, ALTER_CONFIGS, DELETE or CREATE, or READ of a topic; a grant of any
  -- other operation does not count. It says that it is supported if and only if no reply failed.
  pub check_read_only-total_excess :
      (results : List AclResult)
      → (length (check_read_only quote (some results)).violations ≡ total_excess results)
        × ((check_read_only quote (some results)).supported ≡ all_answered results)
  unfolding check_read_only
  check_read_only-total_excess results =
      let (count, sup) = results-excess (record { supported = true; violations = [] }) results in
      (count ∙ omega arith, sup ∙ ground arith)
