-- ===== src/Kafka/LogDirs.antt =====
-- What `LogDirSizes` collects.
use Prim.Native.String.{String}
use text.Mathlib.Text.{◌==◌ as str_eq}
use text.Mathlib.TextEquality.{eq_iff}
use mathlib.Core.List.{◌++◌ as append, append-nil, append_assoc}
use brod_cli.Base.{Option, not, ◌&&◌, List, [], ◌∷◌, foldl, ◌≡◌, sym, ap, ◌∙◌, arith, if◌then◌else◌}
use brod_cli.Base.Int.{ℤ}
use brod_cli.Base.Maps.{
  GoMap, find_name, find_id, or_zero, same_id, alter_id, find-alter_name, find-alter_id,
  same_id_iff,
}
use brod_cli.Collect.Types.{Sizes}
use brod_cli.Kafka.Admin.{LogDirPartition}
use brod_cli.Kafka.Reads.{add_size, collect_sizes}

-- The sizes of the replicas of a partition, in the order of the reply, without future replicas.
unfoldable pub reported : String → ℤ → List LogDirPartition → List ℤ
reported topic pid [] = []
reported topic pid (p ∷ ps) =
    let rest = reported topic pid ps in
    if not p.is_future && (str_eq p.topic topic && same_id p.partition pid)
    then p.size ∷ rest
    else rest

-- The same over the replies of all brokers.
unfoldable pub all_reported : String → ℤ → List (List LogDirPartition) → List ℤ
unfolding reported
all_reported topic pid [] = []
all_reported topic pid (ps ∷ brokers) =
    append (reported topic pid ps) (all_reported topic pid brokers)

module _ (topic : String) (pid : ℤ) where
  abbrev pub sizes_at : GoMap String Sizes → List ℤ
  sizes_at out = or_zero [] (find_id pid (or_zero [] (find_name topic out)))

  sizes_at-add_size :
      (out : GoMap String Sizes) (p : LogDirPartition)
      → sizes_at (add_size out p) ≡ append (sizes_at out) (reported topic pid (p ∷ []))
  unfolding add_size reported
  sizes_at-add_size out p =
      let push = λ (sizes : Option (List ℤ)). append (or_zero [] sizes) (p.size ∷ []) in
      let write = λ (tp : Option Sizes). alter_id p.partition push (or_zero [] tp) in
      ground (
        arith,
        find-alter_name topic p.topic write out,
        find-alter_id pid p.partition push (or_zero [] (find_name p.topic out)),
        eq_iff p.topic topic,
        same_id_iff p.partition pid,
        append-nil (sizes_at out),
      )

  sizes_at-foldl :
      (out : GoMap String Sizes) (ps : List LogDirPartition)
      → sizes_at (foldl add_size out ps) ≡ append (sizes_at out) (reported topic pid ps)
  unfolding reported
  sizes_at-foldl out [] = sym (append-nil _)
  sizes_at-foldl out (p ∷ ps) = ground (
    arith,
    sizes_at-foldl (add_size out p) ps,
    sizes_at-add_size out p,
    append-nil (sizes_at out),
    append_assoc (sizes_at out) (p.size ∷ []) (reported topic pid ps),
  )

  sizes_at-brokers :
      (out : GoMap String Sizes) (dirs : List (List LogDirPartition))
      → sizes_at (foldl (λ m parts. foldl add_size m parts) out dirs)
        ≡ append (sizes_at out) (all_reported topic pid dirs)
  unfolding all_reported
  sizes_at-brokers out [] = sym (append-nil _)
  sizes_at-brokers out (ps ∷ dirs) =
      sizes_at-brokers (foldl add_size out ps) dirs
      ∙ (ap (λ l. append l (all_reported topic pid dirs)) (sizes_at-foldl out ps)
          ∙ append_assoc (sizes_at out) (reported topic pid ps) (all_reported topic pid dirs))

  -- For every topic and partition, the map of `LogDirSizes` holds the sizes that the brokers report
  -- for it, in the order of the replies, each as often as it is reported and none for a future
  -- replica; where nothing is reported, the entry is missing or empty.
  pub collect_sizes-all_reported :
      (dirs : List (List LogDirPartition))
      → sizes_at (collect_sizes dirs) ≡ all_reported topic pid dirs
  unfolding collect_sizes
  collect_sizes-all_reported dirs = sizes_at-brokers [] dirs
