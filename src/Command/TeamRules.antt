-- ===== src/Command/TeamRules.antt =====
-- What `--team` adds to the team rules, and which rule gives a topic its team.
use Prim.Native.Char.{Char}
use Prim.Native.String.{String}
use mathlib.Core.List.{◌++◌ as append}
use brod_cli.Base.{Bool, false, ◌||◌, List, [], ◌∷◌}
use brod_cli.Command.Teams.{TeamRule}

-- Some rule matches the topic.
abbrev pub is_matched : List TeamRule → String → Bool
is_matched [] topic = false
is_matched (r ∷ rules) topic = r.matches topic || is_matched rules topic
