-- ===== src/Kafka/Keeps.antt =====
-- The requests of a client leave alone what the requests of the library leave alone.
use Prim.Native.String.{String}
use brod_cli.Base.{◌≡◌, refl, sym, ap, ◌∙◌, ◌⊎◌, inl, inr, List, [], ◌∷◌}
use brod_cli.Base.Maps.{GoMap}
use brod_cli.Collect.Types.{Call}
use brod_cli.Collect.Keeps.{Keeps, same-Keeps, and_then-Keeps, KeepsReads}
use brod_cli.Kafka.Admin.{Admin}
use brod_cli.Kafka.Reads.{
  blame, blamed, give, committed_from, describe_configs, client_reader, probe_rights, add_group,
}

pub record KeepsRequests {S X : Type 0} (part : S → X) (a : Admin S) : Type 0 where
  pub metadata : Keeps part a.broker_metadata
  pub topics : Keeps part a.list_topics
  pub configs : (names : List String) → Keeps part (a.describe_topic_configs names)
  pub log_dirs : Keeps part a.describe_all_log_dirs
  pub start : Keeps part a.list_start_offsets
  pub end : Keeps part a.list_end_offsets
  pub groups : Keeps part a.list_groups
  pub offsets : (group : String) → Keeps part (a.fetch_offsets group)
  pub acls : Keeps part a.describe_acls

module _ {S X : Type 0} (part : S → X) where
  blame-Keeps :
      {A : Type 0} (text : String) (m : Call S String A) → Keeps part m → Keeps part (blame text m)
  blame-Keeps {A} text m h s s' b = step (m s) refl
    where
      step : (r : (String ⊎ A) × S) → m s ≡ r → blamed text r ≡ (b, s') → part s' ≡ part s
      step (inl e, t) p q = sym (ap (λ z. part z.1) q) ∙ h s t (inl e) p
      step (inr v, t) p q = sym (ap (λ z. part z.1) q) ∙ h s t (inr v) p

  give-Keeps : {A : Type 0} (r : String ⊎ A) → Keeps part (give {S = S} r)
  give-Keeps (inl e) = same-Keeps part _ (λ s. refl)
  give-Keeps (inr v) = same-Keeps part _ (λ s. refl)

  module _ (a : Admin S) (keeps : KeepsRequests part a) where
    committed_from-Keeps :
        (out : GoMap String (List String)) (gs : List String) → Keeps part (committed_from a out gs)
    unfolding committed_from
    committed_from-Keeps out [] s s' r e = sym (ap (λ z. part z.1) e)
    committed_from-Keeps out (g ∷ gs) s s' r e =
        let (reply, t) = a.fetch_offsets g s in
        committed_from-Keeps (add_group g reply out) gs t s' r e ∙ keeps.offsets g s t reply refl

    describe_configs-Keeps :
        (quote : String → String) (names : List String)
        → Keeps part (describe_configs a quote names)
    unfolding describe_configs
    describe_configs-Keeps quote [] = same-Keeps part _ (λ s. refl)
    describe_configs-Keeps quote (name ∷ names) =
        and_then-Keeps part _ _ (blame-Keeps _ _ (keeps.configs (name ∷ names))) λ rcs. give-Keeps _

    pub client_reader-Keeps : (quote : String → String) → KeepsReads part (client_reader a quote)
    unfolding client_reader
    client_reader-Keeps quote = record {
      brokers =
          and_then-Keeps part _ _ (blame-Keeps _ _ keeps.metadata)
            λ _. same-Keeps part _ (λ s. refl);
      topics = and_then-Keeps part _ _ (blame-Keeps _ _ keeps.topics) λ _. give-Keeps _;
      configs = describe_configs-Keeps quote;
      log_dirs =
          and_then-Keeps part _ _ (blame-Keeps _ _ keeps.log_dirs)
            λ _. same-Keeps part _ (λ s. refl);
      start =
          and_then-Keeps part _ _ (blame-Keeps _ _ keeps.start) λ _. same-Keeps part _ (λ s. refl);
      end = and_then-Keeps part _ _ (blame-Keeps _ _ keeps.end) λ _. same-Keeps part _ (λ s. refl);
      groups =
          and_then-Keeps part _ _ (blame-Keeps _ _ keeps.groups) λ _. same-Keeps part _ (λ s. refl);
      committed = committed_from-Keeps [];
    }

    pub probe_rights-Keeps : (quote : String → String) → Keeps part (probe_rights a quote)
    unfolding probe_rights
    probe_rights-Keeps quote = same-Keeps part _ (λ s. keeps.acls s _ _ refl)
