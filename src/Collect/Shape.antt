-- ===== src/Collect/Shape.antt =====
-- What `build` promises of its snapshot.
use brod_cli.Base.{
  ◌≡◌, refl, sym, ap, Bool, false, ◌||◌, none, some, ◌⊎◌, inl, inr, List, [], map, All, All-map,
  All-forall, All-filter_map, arith, Bool-cases, if◌then◌else◌,
}
use brod_cli.Base.Int.{ℤ, negsuc}
use brod_cli.Base.Text.{str_lt, has_prefix}
use brod_cli.Base.Text.Order.{str_lt_asymm, str_lt_neg_trans}
use brod_cli.Base.Sort.{sort-All, IsSorted, IsWeakOrder, sort-IsSorted}
use brod_cli.Base.Float.{Float, nought}
use brod_cli.Rules.Types.{Topic, ConsumerGrp, Snapshot}
use brod_cli.Collect.Types.{TopicInfo, Options, Call, and_then, Reader}
use brod_cli.Collect.Mapping.{drop_internal, map_groups}
use brod_cli.Collect.Build.{Replies, kept, read_cluster, later_probe, topic_of, snapshot_of, build}

and_then-eq-inr :
    {S E A B : Type 0} (m : (E ⊎ A) × S) (k : A → Call S E B) {b : B} {s' : S}
    → and_then m k ≡ (inr b, s')
    → (a : A) × (s : S) × (m ≡ (inr a, s)) × (k a s ≡ (inr b, s'))
and_then-eq-inr (inl e, s) k h = cc
and_then-eq-inr (inr a, s) k h = (a, s, refl, h)

abbrev topics_of : {S E : Type 0} → (E ⊎ Replies) × S → List TopicInfo
topics_of (inl e, s) = []
topics_of (inr q, s) = q.topics

module _ {S E : Type 0} (r : Reader S E) (sleep : ℤ → Call S E (Unit {0})) (opts : Options) where
  pub read_cluster-topics :
      (s : S) {q : Replies} {s' : S}
      → read_cluster r sleep opts s ≡ (inr q, s')
      → (listed : List TopicInfo) × (q.topics ≡ kept opts listed)
  unfolding read_cluster
  read_cluster-topics s h =
      let (brokers, s1, _, h1) = and_then-eq-inr (r.brokers s) _ h in
      let (listed, s2, _, h2) = and_then-eq-inr (r.topics s1) _ h1 in
      let (configs, s3, _, h3) = and_then-eq-inr (r.topic_configs _ s2) _ h2 in
      let (log_dirs, s4, _, h4) = and_then-eq-inr (r.log_dir_sizes s3) _ h3 in
      let (start, s5, _, h5) = and_then-eq-inr (r.start_offsets s4) _ h4 in
      let (end, s6, _, h6) = and_then-eq-inr (r.end_offsets s5) _ h5 in
      let (groups, s7, _, h7) = and_then-eq-inr (r.groups s6) _ h6 in
      let (committed, s8, _, h8) = and_then-eq-inr (r.committed_offsets _ s7) _ h7 in
      let (later, s9, _, h9) = and_then-eq-inr (later_probe r sleep opts s8) _ h8 in
      (listed, sym (ap topics_of h9))

  pub build-eq-inr :
      {F : Type 0} ⦃f : Float F⦄ (clock : ℤ) (s : S) {snap : Snapshot F} {s' : S}
      → build r sleep opts clock s ≡ (inr snap, s')
      → (q : Replies) × (read_cluster r sleep opts s ≡ (inr q, s'))
        × (snap ≡ snapshot_of opts q clock)
  unfolding build
  build-eq-inr clock s h =
      let (q, s1, e, h1) = and_then-eq-inr (read_cluster r sleep opts s) _ h in (q, cc, cc)

abbrev pub IsUnknown : ConsumerGrp → Type 0
IsUnknown g = g.last_commit_age_days ≡ negsuc 0

module _ {F : Type 0} ⦃f : Float F⦄ where
  abbrev pub name_before : Topic F → Topic F → Bool
  name_before x y = str_lt x.name y.name

  name_order : IsWeakOrder name_before (λ _. Unit {0})
  name_order = record {
    asymm = λ x y _ _. str_lt_asymm x.name y.name;
    neg_trans = λ x y z _ _ _. str_lt_neg_trans x.name y.name z.name;
  }

  -- The lag is unknown and no outgoing traffic is claimed.
  abbrev pub IsHonest : Topic F → Type 0
  IsHonest t = (t.max_consumer_lag_ms ≡ negsuc 0) × (t.bytes_out_per_sec ≡ nought)

  topic_of-IsHonest : (opts : Options) (q : Replies) (t : TopicInfo) → IsHonest (topic_of opts q t)
  unfolding topic_of
  topic_of-IsHonest opts q t = (refl, refl)

module _ (F : Type 0) ⦃f : Float F⦄ (opts : Options) (q : Replies) (clock : ℤ) where
  topics-IsHonest : All IsHonest (snapshot_of {F = F} opts q clock).topics
  unfolding snapshot_of
  topics-IsHonest = sort-All name_before IsHonest (map (topic_of opts q) q.topics) (
      All-map IsHonest (topic_of opts q) q.topics
        (All-forall (λ t. IsHonest (topic_of opts q t)) (topic_of-IsHonest opts q) q.topics))

  groups-IsUnknown : All IsUnknown (snapshot_of {F = F} opts q clock).groups
  unfolding snapshot_of map_groups
  groups-IsUnknown = All-map IsUnknown _ q.groups (All-forall _ (λ g. refl {a = negsuc 0}) q.groups)

  topics-IsSorted : IsSorted name_before (snapshot_of {F = F} opts q clock).topics
  unfolding snapshot_of
  topics-IsSorted =
      let ts = map (topic_of opts q) q.topics in
      sort-IsSorted name_before (λ _. Unit {0}) name_order ts (All-forall _ (λ _. tt) ts)

drop_internal-NotInternal :
    (ts : List TopicInfo) → All (λ t. has_prefix t.name "__" ≡ false) (drop_internal ts)
unfolding drop_internal
drop_internal-NotInternal ts =
    All-filter_map (λ _. Unit {0}) _ _ (λ t u _ e. kept_name t u e) ts (All-forall _ (λ _. tt) ts)
  where
    kept_name :
        (t u : TopicInfo)
        → (if t.is_internal || has_prefix t.name "__" then none else some t) ≡ some u
        → has_prefix u.name "__" ≡ false
    kept_name t u e = elim (Bool-cases (t.is_internal || has_prefix t.name "__")) [
      | inl internal ↦ absurd (ground arith)
      | inr other ↦ let same : t ≡ u = ground arith in rw (← same) (ground arith)
    ]

module _ (F : Type 0) ⦃f : Float F⦄ (opts : Options) (q : Replies) (clock : ℤ) where
  outside_kept :
      (listed : List TopicInfo)
      → opts.include_internal ≡ false
      → q.topics ≡ kept opts listed
      → All (λ t. has_prefix t.name "__" ≡ false) (snapshot_of {F = F} opts q clock).topics
  unfolding snapshot_of topic_of
  outside_kept listed off same =
      let P = λ (t : Topic F). has_prefix t.name "__" ≡ false in
      sort-All name_before P (map (topic_of opts q) q.topics)
        (All-map P (topic_of opts q) q.topics (rw (same, off) (drop_internal-NotInternal listed)))

module _ {S E : Type 0} (r : Reader S E) (sleep : ℤ → Call S E (Unit {0})) (opts : Options) where
  -- A snapshot that `build` returns lists its topics by name. For every topic the lag is given as
  -- unknown and the outgoing traffic as zero, and for every group the age of its last commit is
  -- given as unknown. Unless the options keep internal topics, no name begins with two underscores.
  pub build-IsSorted :
      {F : Type 0} ⦃f : Float F⦄ (clock : ℤ) (s s' : S) (snap : Snapshot F)
      → build r sleep opts clock s ≡ (inr snap, s')
      → IsSorted name_before snap.topics
        × All IsHonest snap.topics
        × All IsUnknown snap.groups
        × (opts.include_internal ≡ false → All (λ t. has_prefix t.name "__" ≡ false) snap.topics)
  build-IsSorted clock s s' snap h =
      let (q, e, same) = build-eq-inr r sleep opts clock s h in
      let (listed, topics) = read_cluster-topics r sleep opts s e in
      rw same (
        topics-IsSorted _ opts q clock,
        topics-IsHonest _ opts q clock,
        groups-IsUnknown _ opts q clock,
        λ off. outside_kept _ opts q clock listed off topics,
      )
