-- ===== src/Kafka/Errors.antt =====
-- Whose errors `build` returns on a client.
use Prim.Native.String.{String, ◌++◌}
use text.Mathlib.TextLemmas.{append_assoc}
use brod_cli.Base.{
  ◌⊎◌, inl, inr, List, [], ◌∷◌, ◌≡◌, refl, sym, ap, ◌∙◌, arith, Bool-cases, Option-cases,
}
use brod_cli.Base.Int.{ℤ, pos, ltb_ℤ, ◌<ℤ◌}
use brod_cli.Base.Maps.{GoMap}
use brod_cli.Base.Float.{Float}
use brod_cli.Collect.Types.{Options, Call, and_then, done, Reader}
use brod_cli.Collect.Build.{read_cluster, later_probe, snapshot_of, build}
use brod_cli.Kafka.Admin.{Admin, TopicDetail, ResourceConfig}
use brod_cli.Kafka.Reads.{
  blame, blamed, give, map_each, topic_info, topic_infos, config_info, config_infos, committed_from,
  describe_configs, client_reader, flatten_offsets, add_group, broker_infos, collect_sizes,
  group_infos,
}

-- Each error of the call has the property.
abbrev pub Blames : {S E A : Type 0} → (E → Type 0) → Call S E A → Type 0
Blames {S} {E} P m = (s s' : S) (e : E) → m s ≡ (inl e, s') → P e

abbrev pub error_of : {S E A : Type 0} → E → (E ⊎ A) × S → E
error_of d (inl e, s) = e
error_of d (inr a, s) = d

pub and_then-Blames :
    {S E A B : Type 0} (P : E → Type 0) (m : Call S E A) (k : A → Call S E B)
    → Blames P m
    → ((a : A) → Blames P (k a))
    → Blames P (λ s. and_then (m s) k)
and_then-Blames {S} {E} {A} P m k h hk s s' e p = step (m s) refl p
  where
    step : (r : (E ⊎ A) × S) → m s ≡ r → and_then r k ≡ (inl e, s') → P e
    step (inl x, t) q p =
        let same : x ≡ e = ap (error_of e) p in h s t e (q ∙ ap (λ v. (inl v, t)) same)
    step (inr a, t) q p = hk a t s' e p

done-Blames : {S E A : Type 0} (P : E → Type 0) (a : A) → Blames P (done {S = S} a)
done-Blames P a s s' e p = cc

-- The text begins with the package's name.
abbrev pub NamesKafka : String → Type 0
NamesKafka e = (rest : String) × (e ≡ "kafka: " ++ rest)

blame-NamesKafka :
    {S A : Type 0} (text : String) (m : Call S String A)
    → Blames NamesKafka (blame ("kafka: " ++ text) m)
blame-NamesKafka {S} {A} text m s s' e p = step (m s) p
  where
    step : (r : (String ⊎ A) × S) → blamed ("kafka: " ++ text) r ≡ (inl e, s') → NamesKafka e
    step (inl x, t) p = (text ++ x, sym (ap (error_of e) p) ∙ append_assoc "kafka: " text x)
    step (inr a, t) p = cc

give-Blames :
    {S A : Type 0} (P : String → Type 0) (r : String ⊎ A)
    → ((e : String) → r ≡ inl e → P e)
    → Blames P (give {S = S} r)
give-Blames P (inl x) h s s' e p = h e (ap inl (ap (error_of e) p))
give-Blames P (inr y) h s s' e p = cc

either_cases : {A B : Type 0} (r : A ⊎ B) → ((x : A) × (r ≡ inl x)) ⊎ ((y : B) × (r ≡ inr y))
either_cases (inl x) = inl (x, refl)
either_cases (inr y) = inr (y, refl)

map_each-error :
    {A B : Type 0} (f : A → String ⊎ B) (xs : List A) (P : String → Type 0)
    → ((x : A) (e : String) → f x ≡ inl e → P e)
    → (e : String) → map_each f xs ≡ inl e
    → P e
unfolding map_each
map_each-error f [] P h e p = cc
map_each-error f (x ∷ xs) P h e p = elim (either_cases (f x)) [
  | inl (y, q) ↦ h x e (ground arith)
  | inr (y, q) ↦ elim (either_cases (map_each f xs)) [
    | inl (z, k) ↦ map_each-error f xs P h e (ground arith)
    | inr (z, k) ↦ absurd (ground arith)
  ]
]

-- Each error of a read has the property.
pub record FailsBy {S E : Type 0} (P : E → Type 0) (r : Reader S E) : Type 0 where
  pub brokers : Blames P r.brokers
  pub topics : Blames P r.topics
  pub configs : (names : List String) → Blames P (r.topic_configs names)
  pub log_dirs : Blames P r.log_dir_sizes
  pub start : Blames P r.start_offsets
  pub end : Blames P r.end_offsets
  pub groups : Blames P r.groups
  pub committed : (ids : List String) → Blames P (r.committed_offsets ids)

FailsBy-imp :
    {S E : Type 0} (P Q : E → Type 0) (r : Reader S E)
    → ((e : E) → P e → Q e)
    → FailsBy P r
    → FailsBy Q r
FailsBy-imp P Q r h fails = record {
  brokers = λ s s' e p. h e (fails.brokers s s' e p);
  topics = λ s s' e p. h e (fails.topics s s' e p);
  configs = λ names s s' e p. h e (fails.configs names s s' e p);
  log_dirs = λ s s' e p. h e (fails.log_dirs s s' e p);
  start = λ s s' e p. h e (fails.start s s' e p);
  end = λ s s' e p. h e (fails.end s s' e p);
  groups = λ s s' e p. h e (fails.groups s s' e p);
  committed = λ ids s s' e p. h e (fails.committed ids s s' e p);
}

module _ {S E : Type 0} (P : E → Type 0) (r : Reader S E) (fails : FailsBy P r)
    (sleep : ℤ → Call S E (Unit {0})) (opts : Options) where
  later_probe-Blames :
      (pos 0 <ℤ opts.sample_window → Blames P (sleep opts.sample_window))
      → Blames P (later_probe r sleep opts)
  unfolding later_probe
  later_probe-Blames slept = elim (Bool-cases (ltb_ℤ (pos 0) opts.sample_window)) [
    | inl sampled ↦
        rw sampled
          (and_then-Blames P (sleep opts.sample_window) _ (slept (ground arith)) (λ _. fails.end))
    | inr single ↦ rw single (done-Blames P [])
  ]

  read_cluster-Blames :
      (pos 0 <ℤ opts.sample_window → Blames P (sleep opts.sample_window))
      → Blames P (read_cluster r sleep opts)
  unfolding read_cluster
  read_cluster-Blames slept = and_then-Blames P _ _ fails.brokers λ _.
      and_then-Blames P _ _ fails.topics λ _. and_then-Blames P _ _ (fails.configs _) λ _.
        and_then-Blames P _ _ fails.log_dirs λ _. and_then-Blames P _ _ fails.start λ _.
          and_then-Blames P _ _ fails.end λ _. and_then-Blames P _ _ fails.groups λ _.
            and_then-Blames P _ _ (fails.committed _)
              λ _. and_then-Blames P _ _ (later_probe-Blames slept) λ _. done-Blames P _

  build-Blames :
      {F : Type 0} ⦃f : Float F⦄ (clock : ℤ)
      → (pos 0 <ℤ opts.sample_window → Blames P (sleep opts.sample_window))
      → Blames P (build {F = F} r sleep opts clock)
  unfolding build
  build-Blames clock slept =
      and_then-Blames P _ _ (read_cluster-Blames slept)
        λ q. done-Blames P (snapshot_of opts q clock)

module _ (quote : String → String) where
  topic_infos-NamesKafka :
      (td : GoMap String TopicDetail) (e : String) → topic_infos quote td ≡ inl e → NamesKafka e
  unfolding topic_infos
  topic_infos-NamesKafka td e p = elim (either_cases (map_each (topic_info quote) td)) [
    | inl (z, k) ↦ map_each-error (topic_info quote) td NamesKafka one e (ground arith)
    | inr (z, k) ↦ absurd (ground arith)
  ]
    where
      one : (x : String × TopicDetail) (e : String) → topic_info quote x ≡ inl e → NamesKafka e
      one (name, d) e q =
          unfold topic_info in
          elim (Option-cases d.err) [
            | inl fine ↦ absurd (ground arith)
            | inr (x, failed) ↦
                let text = "topic " ++ (quote name ++ (" metadata: " ++ x)) in
                (
                  text,
                  ground
                      (arith, append_assoc "kafka: " "topic " (quote name ++ (" metadata: " ++ x))),
                )
          ]

  config_infos-NamesKafka :
      (rcs : List ResourceConfig) (e : String) → config_infos quote rcs ≡ inl e → NamesKafka e
  unfolding config_infos
  config_infos-NamesKafka rcs e p = elim (either_cases (map_each (config_info quote) rcs)) [
    | inl (z, k) ↦ map_each-error (config_info quote) rcs NamesKafka one e (ground arith)
    | inr (z, k) ↦ absurd (ground arith)
  ]
    where
      one : (x : ResourceConfig) (e : String) → config_info quote x ≡ inl e → NamesKafka e
      one rc e q =
          unfold config_info in
          elim (Option-cases rc.err) [
            | inl fine ↦ absurd (ground arith)
            | inr (x, failed) ↦
                let text = "topic " ++ (quote rc.name ++ (" configs: " ++ x)) in
                (
                  text,
                  ground (
                    arith,
                    append_assoc "kafka: " "topic " (quote rc.name ++ (" configs: " ++ x)),
                  ),
                )
          ]

module _ {S : Type 0} (a : Admin S) (quote : String → String) where
  -- A request of the library, then a computation on the reply.
  reads-NamesKafka :
      {A B : Type 0} (text : String) (m : Call S String A) (k : A → Call S String B)
      → ((x : A) → Blames NamesKafka (k x))
      → Blames NamesKafka (λ s. and_then (blame ("kafka: " ++ text) m s) k)
  reads-NamesKafka text m k h =
      and_then-Blames NamesKafka (blame ("kafka: " ++ text) m) k (blame-NamesKafka text m) h

  describe_configs-NamesKafka :
      (names : List String) → Blames NamesKafka (describe_configs a quote names)
  unfolding describe_configs
  describe_configs-NamesKafka [] = done-Blames NamesKafka []
  describe_configs-NamesKafka (name ∷ names) =
      reads-NamesKafka "describe topic configs: " (a.describe_topic_configs (name ∷ names)) _
        λ rcs. give-Blames NamesKafka (config_infos quote rcs) (config_infos-NamesKafka quote rcs)

  committed_from-Blames :
      (P : String → Type 0) (out : GoMap String (List String)) (gs : List String)
      → Blames P (committed_from a out gs)
  unfolding committed_from
  committed_from-Blames P out [] s s' e p = cc
  committed_from-Blames P out (g ∷ gs) s s' e p =
      committed_from-Blames P (add_group g (a.fetch_offsets g s).0 out) gs (a.fetch_offsets g s).1
        s' e p

  client_reader-FailsBy : FailsBy NamesKafka (client_reader a quote)
  unfolding client_reader
  client_reader-FailsBy = record {
    brokers =
        reads-NamesKafka "broker metadata: " a.broker_metadata _
          λ bs. done-Blames NamesKafka (broker_infos bs);
    topics =
        reads-NamesKafka "list topics: " a.list_topics _
          λ td. give-Blames NamesKafka (topic_infos quote td) (topic_infos-NamesKafka quote td);
    configs = describe_configs-NamesKafka;
    log_dirs =
        reads-NamesKafka "describe log dirs: " a.describe_all_log_dirs _
          λ dirs. done-Blames NamesKafka (collect_sizes dirs);
    start =
        reads-NamesKafka "list start offsets: " a.list_start_offsets _
          λ lo. done-Blames NamesKafka (flatten_offsets lo);
    end =
        reads-NamesKafka "list end offsets: " a.list_end_offsets _
          λ lo. done-Blames NamesKafka (flatten_offsets lo);
    groups =
        reads-NamesKafka "list groups: " a.list_groups _
          λ lg. done-Blames NamesKafka (group_infos lg);
    committed = committed_from-Blames NamesKafka [];
  }

  -- The error is the package's, or the one by which the wait for a sample window ended.
  abbrev pub IsNamedOrWaits : (ℤ → Call S String (Unit {0})) → ℤ → String → Type 0
  IsNamedOrWaits sleep window e =
      NamesKafka e ⊎ ((pos 0 <ℤ window) × ((s : S) × ((s' : S) × (sleep window s ≡ (inl e, s')))))

  -- On a client, every error of `build` begins with the package's name, or it is, as it stands,
  -- the error of the wait for a sample window, in a state in which that wait fails, and the window
  -- is positive.
  pub build-NamesKafka :
      (sleep : ℤ → Call S String (Unit {0})) (opts : Options) {F : Type 0} ⦃f : Float F⦄ (clock : ℤ)
      → Blames
          (IsNamedOrWaits sleep opts.sample_window)
          (build {F = F} (client_reader a quote) sleep opts clock)
  build-NamesKafka sleep opts clock =
      build-Blames (IsNamedOrWaits sleep opts.sample_window) (client_reader a quote)
        (FailsBy-imp NamesKafka _ (client_reader a quote) (λ e h. inl h) client_reader-FailsBy)
        sleep opts clock (λ late s s' e p. inr (late, (s, (s', p))))
