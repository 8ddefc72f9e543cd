-- ===== src/Collect/Mapping.antt =====
-- The pure mapping helpers of collect.go.
use Prim.Native.Nat.{◌+◌, ◌*◌, ◌-◌, ◌^◌}
use Prim.Native.String.{String}
use text.Mathlib.Text.{◌==◌ as str_eq}
use mathlib.Core.List.{filter_map}
use brod_cli.Base.{
  ℕ, Bool, true, false, ◌&&◌, ◌||◌, Option, none, some, List, [], ◌∷◌, map, foldl, ltb, leb, ◌==◌,
  if◌then◌else◌,
}
use brod_cli.Base.Int.{ℤ, pos, negsuc, ◌+ℤ◌, ◌-ℤ◌, ltb_ℤ, leb_ℤ, i64, sub_ℕ}
use brod_cli.Base.Text.{codes, has_prefix, trim_space, to_lower, same_codes}
use brod_cli.Base.Sort.{sort}
use brod_cli.Base.Float.{Float, nought}
use brod_cli.Rules.Types.{Broker, ConsumerGrp}
use brod_cli.Collect.Types.{BrokerInfo, TopicInfo, GroupInfo, Options, Sizes, Offsets}
use brod_cli.Base.Maps.{GoMap, find_name, find_id, or_zero}

unfoldable pub drop_internal : List TopicInfo → List TopicInfo
drop_internal = filter_map λ t. if t.is_internal || has_prefix t.name "__" then none else some t

-- `total += b` over a slice
abbrev pub sum_from : ℤ → List ℤ → ℤ
sum_from = foldl (λ total b. i64 (total +ℤ b))

unfoldable pub sum_replica_bytes : Sizes → ℤ
sum_replica_bytes = foldl (λ total entry. sum_from total entry.1) (pos 0)

-- The sizes of the partitions in the order of their ids.
unfoldable pub per_partition_bytes : Sizes → List ℤ
per_partition_bytes parts =
    map (λ pid. sum_from (pos 0) (or_zero [] (find_id pid parts)))
      (sort ltb_ℤ (map (λ entry. entry.0) parts))

-- The variables of the loop in `offsetSpan`.
pub record Span : Type 0 where
  pub earliest : ℤ
  pub latest : ℤ
  pub first : Bool

abbrev pub widen_start : Span → Option ℤ → ℤ
widen_start span none = span.earliest
widen_start span (some s) = if span.first || ltb_ℤ s span.earliest then s else span.earliest

abbrev pub widen_end : Span → Option ℤ → ℤ
widen_end span none = span.latest
widen_end span (some e) = if ltb_ℤ span.latest e then e else span.latest

-- One turn of the loop.
unfoldable pub widen : Offsets → Offsets → Span → ℤ → Span
widen start end span pid = record {
  earliest = widen_start span (find_id pid start);
  latest = widen_end span (find_id pid end);
  first = false;
}

unfoldable pub offset_span : List ℤ → Offsets → Offsets → ℤ × ℤ
offset_span pids start end =
    let span =
      foldl (widen start end) (record { earliest = pos 0; latest = pos 0; first = true }) pids in
    (span.earliest, span.latest)

unfoldable pub is_inactive_state : String → Bool
is_inactive_state state =
    let cs = map to_lower (trim_space (codes state)) in
    same_codes cs (codes "empty") || same_codes cs (codes "dead") || same_codes cs []

-- `out[topic]++`
unfoldable pub count_up : GoMap String ℤ → String → GoMap String ℤ
count_up [] topic = (topic, pos 1) ∷ []
count_up ((name, n) ∷ rest) topic =
    let others = count_up rest topic in
    if str_eq name topic then (name, i64 (n +ℤ pos 1)) ∷ rest else (name, n) ∷ others

unfoldable pub active_consumers : List GroupInfo → GoMap String (List String) → GoMap String ℤ
active_consumers groups committed =
    foldl
      (λ out g.
        if is_inactive_state g.state
        then out
        else foldl count_up out (or_zero [] (find_name g.group_id committed)))
      [] groups

unfoldable pub map_brokers : List BrokerInfo → List Broker
map_brokers = map λ b. record { id = b.id; log_dir_bytes = pos 0 }

unfoldable pub map_groups : List GroupInfo → List ConsumerGrp
map_groups =
    map λ g. record { group_id = g.group_id; state = g.state; last_commit_age_days = negsuc 0 }

-- The digits of a numeral behind `acc`.
unfoldable pub parse_digits : ℕ → List ℕ → Option ℕ
parse_digits acc [] = some acc
parse_digits acc (c ∷ cs) =
    let rest = parse_digits (acc * 10 + (c - b'0')) cs in
    if leb b'0' c && leb c b'9' then rest else none

abbrev pub parse_number : List ℕ → Option ℕ
parse_number [] = none
parse_number (c ∷ cs) = parse_digits 0 (c ∷ cs)

abbrev pub in_range : Bool → Option ℕ → Option ℤ
in_range negative none = none
in_range false (some n) = if ltb n (2 ^ 63) then some (pos n) else none
in_range true (some n) = if leb n (2 ^ 63) then some (sub_ℕ 0 n) else none

-- `strconv.ParseInt(s, 10, 64)`; `none` is its error.
unfoldable pub parse_int : List ℕ → Option ℤ
parse_int [] = none
parse_int (c ∷ cs) =
    if c == b'-'
    then in_range true (parse_number cs)
    else if c == b'+'
    then in_range false (parse_number cs)
    else in_range false (parse_number (c ∷ cs))

unfoldable pub retention_ms : Option String → ℤ
retention_ms none = negsuc 0
retention_ms (some v) = or_zero (negsuc 0) (parse_int (trim_space (codes v)))

unfoldable pub str_or : Option String → String → String
str_or none default = default
str_or (some v) default = if str_eq v "" then default else v

unfoldable pub cluster_name : Options → String
cluster_name opts = if str_eq opts.cluster_name "" then "kafka-cluster" else opts.cluster_name

unfoldable pub provider_or_self : String → String
provider_or_self p = if str_eq p "" then "self" else p

-- The counters of the loop in `estimateBytesInPerSec`.
unfoldable pub total_records : Offsets → Offsets → ℤ
total_records start =
    foldl
      (λ total entry.
        let s = or_zero (pos 0) (find_id entry.0 start) in
        if ltb_ℤ s entry.1 then i64 (total +ℤ i64 (entry.1 -ℤ s)) else total)
      (pos 0)

abbrev pub produced : ℤ → ℤ → Option ℤ → ℤ
produced delta e0 none = delta
produced delta e0 (some e1) = if ltb_ℤ e0 e1 then i64 (delta +ℤ i64 (e1 -ℤ e0)) else delta

unfoldable pub delta_records : Offsets → Offsets → ℤ
delta_records end1 = foldl (λ delta entry. produced delta entry.1 (find_id entry.0 end1)) (pos 0)

module _ {F : Type 0} ⦃f : Float F⦄ where
  open f use {le, div, mul, of_int}

  unfoldable pub estimate_bytes_in_per_sec : ℤ → Offsets → Offsets → Offsets → F → F
  estimate_bytes_in_per_sec retained start end0 end1 window_secs =
      if le window_secs nought
      then nought
      else let records = total_records start end0 in
        let delta = delta_records end1 end0 in
        if leb_ℤ records (pos 0) || leb_ℤ delta (pos 0) || leb_ℤ retained (pos 0)
        then nought
        else mul (div (of_int delta) window_secs) (div (of_int retained) (of_int records))
