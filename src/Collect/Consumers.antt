-- ===== src/Collect/Consumers.antt =====
-- The counts of `activeConsumers`.
use Prim.Native.String.{String}
use text.Mathlib.Text.{◌==◌ as str_eq}
use text.Mathlib.TextEquality.{eq_iff}
use brod_cli.Base.{
  ℕ, suc, ◌+◌, ◌<◌, ◌^◌, ◌≡◌, refl, sym, ◌∙◌, ap, true, false, List, [], ◌∷◌, foldl, arith, map,
  Bool, ◌||◌, Bool-cases, inl, inr, if◌then◌else◌,
}
use brod_cli.Base.Int.{ℤ, pos, ◌+ℤ◌, i64, i64_of_IsI64}
use brod_cli.Base.Text.{codes, trim_space, to_lower, same_codes}
use brod_cli.Collect.Types.{GroupInfo}
use brod_cli.Base.Maps.{GoMap, find_name, or_zero}
use brod_cli.Collect.Mapping.{is_inactive_state, count_up, active_consumers}

-- How often a topic stands in a list.
unfoldable pub occurrences : String → List String → ℕ
occurrences topic [] = 0
occurrences topic (x ∷ xs) =
    let rest = occurrences topic xs in if str_eq x topic then suc rest else rest

-- The state is the word, up to the white space around it and the case of ASCII letters.
abbrev stands_for : String → List ℕ → Bool
stands_for state word = same_codes (map to_lower (trim_space (codes state))) word

-- The states of a group that does not consume, with that of no state at all.
unfoldable pub is_idle : String → Bool
is_idle state =
    stands_for state [] || (stands_for state (codes "empty") || stands_for state (codes "dead"))

is_inactive_state-is_idle : (state : String) → is_inactive_state state ≡ is_idle state
unfolding is_inactive_state is_idle
is_inactive_state-is_idle state = ground arith

-- How many groups that are not idle have committed offsets on a topic, where each list is a set.
unfoldable pub consumers : String → GoMap String (List String) → List GroupInfo → ℕ
unfolding occurrences
consumers topic committed [] = 0
consumers topic committed (g ∷ gs) =
    let rest = consumers topic committed gs in
    if is_idle g.state
    then rest
    else occurrences topic (or_zero [] (find_name g.group_id committed)) + rest

abbrev count : String → GoMap String ℤ → ℤ
count topic m = or_zero (pos 0) (find_name topic m)

next_count : (n : ℕ) → suc n < 2 ^ 63 → i64 (pos n +ℤ pos 1) ≡ pos (suc n)
unfolding ◌+ℤ◌
next_count n h = i64_of_IsI64 (pos n +ℤ pos 1) (ground arith) ∙ ground arith

-- Two texts that differ are not both equal to a third one.
apart : (s t u : String) → str_eq t u ≡ false → str_eq s t ≡ true → str_eq s u ≡ false
apart s t u h e = let same : s ≡ t = (eq_iff s t).0 e in ap (λ z. str_eq z u) same ∙ h

count_up-same :
    (m : GoMap String ℤ) (topic : String)
    → count topic (count_up m topic) ≡ i64 (count topic m +ℤ pos 1)
unfolding count_up
count_up-same [] topic = rw ((eq_iff topic topic).1 refl) (sym (next_count 0 (omega arith)))
count_up-same ((name, n) ∷ rest) topic = elim (Bool-cases (str_eq name topic)) [
  | inl e ↦ rw (e, e)
  | inr e ↦ rw (e, e) (count_up-same rest topic)
]

count_up-other :
    (m : GoMap String ℤ) (x topic : String)
    → str_eq x topic ≡ false
    → count topic (count_up m x) ≡ count topic m
unfolding count_up
count_up-other [] x topic h = rw h
count_up-other ((name, n) ∷ rest) x topic h = elim (Bool-cases (str_eq name x)) [
  | inl e ↦ rw (e, apart name x topic h e)
  | inr e ↦ rw e (elim (Bool-cases (str_eq name topic)) [
    | inl k ↦ rw k
    | inr k ↦ rw k (count_up-other rest x topic h)
  ])
]

counts-occurrences :
    (topic : String) (m : GoMap String ℤ) (xs : List String) (n : ℕ)
    → count topic m ≡ pos n
    → n + occurrences topic xs < 2 ^ 63
    → count topic (foldl count_up m xs) ≡ pos (n + occurrences topic xs)
unfolding occurrences
counts-occurrences topic m [] n e h = e ∙ ap pos (omega arith)
counts-occurrences topic m (x ∷ xs) n e h = elim (Bool-cases (str_eq x topic)) [
  | inl k ↦
      let same : x ≡ topic = (eq_iff x topic).0 k in
      let fits : suc n + occurrences topic xs < 2 ^ 63 = ground arith in
      let one : count topic (count_up m x) ≡ pos (suc n) =
        rw same
          (count_up-same m topic ∙ (ap (λ z. i64 (z +ℤ pos 1)) e ∙ next_count n (omega arith))) in
      counts-occurrences topic (count_up m x) xs (suc n) one fits ∙ ap pos (ground arith)
  | inr k ↦
      let fits : n + occurrences topic xs < 2 ^ 63 = ground arith in
      let none_new : count topic (count_up m x) ≡ pos n = count_up-other m x topic k ∙ e in
      counts-occurrences topic (count_up m x) xs n none_new fits ∙ ap pos (ground arith)
]

abbrev one_group : GoMap String (List String) → GoMap String ℤ → GroupInfo → GoMap String ℤ
one_group committed out g =
    if is_inactive_state g.state
    then out
    else foldl count_up out (or_zero [] (find_name g.group_id committed))

counts-consumers :
    (topic : String) (committed : GoMap String (List String)) (out : GoMap String ℤ)
    (gs : List GroupInfo) (n : ℕ)
    → count topic out ≡ pos n
    → n + consumers topic committed gs < 2 ^ 63
    → count topic (foldl (one_group committed) out gs) ≡ pos (n + consumers topic committed gs)
unfolding consumers
counts-consumers topic committed out [] n e h = e ∙ ap pos (omega arith)
counts-consumers topic committed out (g ∷ gs) n e h = elim (Bool-cases (is_idle g.state)) [
  | inl k ↦
      let idle = is_inactive_state-is_idle g.state ∙ k in
      let fits : n + consumers topic committed gs < 2 ^ 63 = ground arith in
      rw (idle, k) (counts-consumers topic committed out gs n e fits)
  | inr k ↦
      let busy = is_inactive_state-is_idle g.state ∙ k in
      let topics = or_zero [] (find_name g.group_id committed) in
      let here = occurrences topic topics in
      let fits : n + here + consumers topic committed gs < 2 ^ 63 = ground arith in
      let next = counts-occurrences topic out topics n e (omega arith) in
      rw (busy, k)
        (counts-consumers topic committed (foldl count_up out topics) gs (n + here) next fits
          ∙ ap pos (omega arith))
]

-- `activeConsumers` counts for each topic the groups that have committed offsets on it and whose
-- state is neither empty nor dead nor missing, if these are fewer than 2 ^ 63, whatever the order
-- of its maps is. A topic without such a group is missing or has the count 0.
pub active_consumers-consumers :
    (topic : String) (committed : GoMap String (List String)) (gs : List GroupInfo)
    → consumers topic committed gs < 2 ^ 63
    → or_zero (pos 0) (find_name topic (active_consumers gs committed))
      ≡ pos (consumers topic committed gs)
unfolding active_consumers
active_consumers-consumers topic committed gs h =
    counts-consumers topic committed [] gs 0 refl (omega arith) ∙ ap pos (omega arith)
