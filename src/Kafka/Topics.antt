-- ===== src/Kafka/Topics.antt =====
-- The topics that `Topics` returns.
use Prim.Native.String.{String}
use mathlib.Core.Path.{subst}
use mathlib.Core.List.{Mem, mem-cons_self, mem-cons_of_mem, Perm}
use brod_cli.Base.{
  ℕ, ◌≤◌, Bool, ◌≡◌, refl, ap, ◌∙◌, ◌⊎◌, inl, inr, List, [], ◌∷◌, foldl, length, ltb, Option-cases,
  All, All-imp, All-forall, arith, if◌then◌else◌,
}
use brod_cli.Base.Int.{ℤ, pos, ◌≤ℤ◌}
use brod_cli.Base.Sort.{sort, sort-IsSorted, sort-perm, IsSorted, IsWeakOrder}
use brod_cli.Base.Text.{str_lt}
use brod_cli.Base.Text.Order.{str_lt_asymm, str_lt_neg_trans}
use brod_cli.Base.Maps.{GoMap}
use brod_cli.Collect.Types.{TopicInfo}
use brod_cli.Kafka.Admin.{TopicDetail}
use brod_cli.Kafka.Reads.{map_each, max_replicas, topic_info, topic_infos}

abbrev pub name_before : TopicInfo → TopicInfo → Bool
name_before x y = str_lt x.name y.name

-- The largest number of replicas of a partition, 0 where there is no partition.
abbrev pub IsMost : GoMap ℤ (List ℤ) → ℤ → Type 0
IsMost ps n =
    All (λ (entry : ℤ × List ℤ). pos (length entry.1) ≤ℤ n) ps
    × ((n ≡ pos 0) ⊎ ((entry : ℤ × List ℤ) × (Mem entry ps × (n ≡ pos (length entry.1)))))

-- What a topic tells of an entry of the reply.
abbrev pub IsReadFrom : String × TopicDetail → TopicInfo → Type 0
IsReadFrom (name, d) t =
    (t.name ≡ name)
    × ((t.is_internal ≡ d.is_internal)
        × ((t.replicas ≡ d.partitions)
            × ((t.partitions ≡ pos (length d.partitions))
                × IsMost d.partitions t.replication_factor)))

-- As many results as entries, each from its entry.
abbrev pub Matches : {A B : Type 0} → (A → B → Type 0) → List A → List B → Type 0
Matches R [] [] = Unit
Matches R [] (y ∷ ys) = ⊥
Matches R (x ∷ xs) [] = ⊥
Matches R (x ∷ xs) (y ∷ ys) = R x y × Matches R xs ys

abbrev raise : ℕ → ℤ × List ℤ → ℕ
raise m entry = if ltb m (length entry.1) then length entry.1 else m

raised :
    (m : ℕ) (ps : GoMap ℤ (List ℤ))
    → (m ≤ foldl raise m ps) × All (λ (entry : ℤ × List ℤ). length entry.1 ≤ foldl raise m ps) ps
raised m [] = (omega arith, tt)
raised m (p ∷ ps) = let (up, rest) = raised (raise m p) ps in (ground arith, (ground arith, rest))

raise_cases : (m : ℕ) (p : ℤ × List ℤ) → (raise m p ≡ m) ⊎ (raise m p ≡ length p.1)
raise_cases m p = ground arith

attained :
    (m : ℕ) (ps : GoMap ℤ (List ℤ))
    → (foldl raise m ps ≡ m)
      ⊎ ((entry : ℤ × List ℤ) × (Mem entry ps × (foldl raise m ps ≡ length entry.1)))
attained m [] = inl refl
attained m (p ∷ ps) = elim (attained (raise m p) ps) [
  | inr (entry, (m, e)) ↦ inr (entry, (mem-cons_of_mem p m, e))
  | inl kept ↦ elim (raise_cases m p) [
    | inl same ↦ inl (kept ∙ same)
    | inr here ↦ inr (p, (mem-cons_self, kept ∙ here))
  ]
]

raise-IsMost : (ps : GoMap ℤ (List ℤ)) → IsMost ps (pos (foldl raise 0 ps))
raise-IsMost ps = (
  All-imp (λ (entry : ℤ × List ℤ). length entry.1 ≤ foldl raise 0 ps) _ (λ entry h. omega arith) ps
      (raised 0 ps).1,
  elim (attained 0 ps) [
    | inl none ↦ inl (ap pos none)
    | inr (entry, (m, e)) ↦ inr (entry, (m, ap pos e))
  ],
)

-- The results of the loop.
abbrev Gives : {E A B : Type 0} → (A → B → Type 0) → List A → E ⊎ List B → Type 0
Gives R xs (inl e) = Unit
Gives R xs (inr ys) = Matches R xs ys

module _ {E A B : Type 0} (g : A → E ⊎ B) (R : A → B → Type 0) where
  both_given :
      (x : A) (xs : List A) (r : E ⊎ B) (rs : E ⊎ List B)
      → ((y : B) → r ≡ inr y → R x y)
      → Gives R xs rs
      → Gives R
          (x ∷ xs)
          (elim r [ inl e ↦ inl e | inr y ↦ elim rs [ inl e ↦ inl e | inr ys ↦ inr (y ∷ ys) ] ])
  both_given x xs (inl e) rs h k = tt
  both_given x xs (inr y) (inl e) h k = tt
  both_given x xs (inr y) (inr ys) h k = (h y refl, k)

  map_each-Gives :
      ((x : A) (y : B) → g x ≡ inr y → R x y) → (xs : List A) → Gives R xs (map_each g xs)
  unfolding map_each
  map_each-Gives h [] = tt
  map_each-Gives h (x ∷ xs) = both_given x xs (g x) (map_each g xs) (h x) (map_each-Gives h xs)

name_order : IsWeakOrder name_before (λ _. Unit {0})
name_order = record {
  asymm = λ x y _ _. str_lt_asymm x.name y.name;
  neg_trans = λ x y z _ _ _. str_lt_neg_trans x.name y.name z.name;
}

abbrev given : {A : Type 0} → A → String ⊎ A → A
given z (inl e) = z
given z (inr y) = y

abbrev in_order : String ⊎ List TopicInfo → String ⊎ List TopicInfo
in_order r = elim r [ inl e ↦ inl e | inr us ↦ inr (sort name_before us) ]

module _ (quote : String → String) where
  topic_info-IsReadFrom :
      (x : String × TopicDetail) (t : TopicInfo) → topic_info quote x ≡ inr t → IsReadFrom x t
  unfolding topic_info max_replicas
  topic_info-IsReadFrom (name, d) t e = elim (Option-cases d.err) [
    | inr (failure, p) ↦ absurd (ground arith)
    | inl fine ↦
        let ps = d.partitions in
        let read : TopicInfo = record {
          name = name;
          is_internal = d.is_internal;
          partitions = pos (length ps);
          replication_factor = pos (max_replicas ps);
          replicas = ps;
        } in
        let same : read ≡ t = ap (given t) (rw fine at e) in
        subst (IsReadFrom (name, d)) same (refl, (refl, (refl, (refl, raise-IsMost ps))))
  ]

  -- If the topics are returned, they are in the order of their names, and they are, in some order,
  -- one for each entry of the reply: with its name, its flag, its partitions and their number, and
  -- as replication factor the largest number of replicas of a partition.
  pub topic_infos-IsSorted :
      (td : GoMap String TopicDetail) (ts : List TopicInfo)
      → topic_infos quote td ≡ inr ts
      → IsSorted name_before ts × ((us : List TopicInfo) × (Perm ts us × Matches IsReadFrom td us))
  unfolding topic_infos
  topic_infos-IsSorted td ts e =
      step (map_each (topic_info quote) td)
        (map_each-Gives (topic_info quote) IsReadFrom topic_info-IsReadFrom td) e
    where
      step :
          (r : String ⊎ List TopicInfo)
          → Gives IsReadFrom td r
          → in_order r ≡ inr ts
          → IsSorted name_before ts
            × ((us : List TopicInfo) × (Perm ts us × Matches IsReadFrom td us))
      step (inl e) k p = cc
      step (inr us) k p =
          let same : sort name_before us ≡ ts = ap (given []) p in
          (
            subst (IsSorted name_before) same (
                sort-IsSorted name_before (λ _. Unit {0}) name_order us
                  (All-forall _ (λ _. tt) us)),
            (us, (subst (λ l. Perm l us) same (sort-perm name_before us), k)),
          )
