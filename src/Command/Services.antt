-- ===== src/Command/Services.antt =====
-- cmd/brod: the flags of the commands, and what the commands ask of Go's library.
use Prim.Native.String.{String}
use brod_cli.Base.{Bool, List, ◌⊎◌}
use brod_cli.Base.Int.{ℤ}
use brod_cli.Base.Maps.{GoMap}
use brod_cli.Rules.Types.{Snapshot, Finding}
use brod_cli.Command.Live.{ConnectFlags}
use brod_cli.Command.Teams.{TeamRule, Row}
use brod_cli.Command.Tables.{CostDoc}

pub record ScanFlags (F : Type 0) : Type 0 where
  pub snapshot : String
  pub cost : F
  pub provider : String
  pub as_json : Bool
  pub verbose : Bool
  pub connect : ConnectFlags

pub record CostFlags (F : Type 0) : Type 0 where
  pub snapshot : String
  pub cost : F
  pub provider : String
  pub as_json : Bool
  pub teams : List TeamRule
  pub connect : ConnectFlags

pub record CollectFlags : Type 0 where
  pub out : String
  pub connect : ConnectFlags

-- The document of `emitJSON`.
pub record ScanDoc (F : Type 0) : Type 0 where
  pub cluster : String
  pub taken_at : ℤ
  pub total_saving_eur : F
  pub findings : List (Finding F)

-- What the commands ask of Go's library: package flag, which calls the method `Set` of `--team`,
-- package regexp, package json and the order in which `sort.Slice` and `range` leave their
-- elements. The encoders end their text with a new line. `sample` is the embedded snapshot, `version` is set when the program is built.
pub record Library (F : Type 0) : Type 0 where
  pub parse_scan : List String → String ⊎ ScanFlags F
  pub parse_collect : List String → String ⊎ CollectFlags
  pub parse_cost :
      (List TeamRule → String → String ⊎ List TeamRule) → List String → String ⊎ CostFlags F
  pub compile : String → String ⊎ (String → Bool)
  pub unmarshal : String → String ⊎ Snapshot F
  pub marshal : Snapshot F → String ⊎ String
  pub encode_scan : ScanDoc F → String ⊎ String
  pub encode_cost : CostDoc F → String ⊎ String
  pub sort_slice : (Row F → Row F → Bool) → List (Row F) → List (Row F)
  pub range : GoMap String F → GoMap String F
  pub sample : String
  pub version : String
