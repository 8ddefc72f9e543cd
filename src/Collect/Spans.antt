-- ===== src/Collect/Spans.antt =====
-- The bounds that `offsetSpan` returns.
use mathlib.Core.List.{Mem, mem-cons_self, mem-cons_of_mem}
use brod_cli.Base.{
  ◌≡◌, refl, sym, ap, ◌∙◌, ◌⊎◌, inl, inr, true, false, Option, none, some, List, [], ◌∷◌, foldl,
  All, arith,
}
use brod_cli.Base.Int.{ℤ, pos, ◌≤ℤ◌}
use brod_cli.Collect.Types.{Offsets}
use brod_cli.Base.Maps.{find_id}
use brod_cli.Collect.Mapping.{Span, widen, widen_start, widen_end, offset_span}

≤ℤ_trans : (a b c : ℤ) → a ≤ℤ b → b ≤ℤ c → a ≤ℤ c
≤ℤ_trans a b c h k = omega arith

widen_start-Covers :
    (span : Span) (m : Option ℤ)
    → span.first ≡ false
    → (widen_start span m ≤ℤ span.earliest) × ((s : ℤ) → m ≡ some s → widen_start span m ≤ℤ s)
widen_start-Covers span none h = (omega arith, λ s e. ground arith)
widen_start-Covers span (some x) h = (ground arith, λ s e. ground arith)

widen_end-Covers :
    (span : Span) (m : Option ℤ)
    → (span.latest ≤ℤ widen_end span m) × ((e : ℤ) → m ≡ some e → e ≤ℤ widen_end span m)
widen_end-Covers span none = (omega arith, λ s e. ground arith)
widen_end-Covers span (some x) = (ground arith, λ s e. ground arith)

start_cases :
    (span : Span) (m : Option ℤ)
    → span.first ≡ false
    → (widen_start span m ≡ span.earliest) ⊎ (m ≡ some (widen_start span m))
start_cases span none h = inl refl
start_cases span (some x) h = ground arith

end_cases :
    (span : Span) (m : Option ℤ) → (widen_end span m ≡ span.latest) ⊎ (m ≡ some (widen_end span m))
end_cases span none = inl refl
end_cases span (some x) = ground arith

first_start :
    (span : Span) (m : Option ℤ) (s : ℤ) → span.first ≡ true → m ≡ some s → widen_start span m ≡ s
first_start span none s h e = ground arith
first_start span (some x) s h e = ground arith

-- The offset is that of a partition of the list.
abbrev pub IsOffset : Offsets → List ℤ → ℤ → Type 0
IsOffset offsets pids x = (p : ℤ) × (Mem p pids × (find_id p offsets ≡ some x))

IsOffset-cons :
    (offsets : Offsets) (pid : ℤ) (pids : List ℤ) (x : ℤ)
    → IsOffset offsets pids x
    → IsOffset offsets (pid ∷ pids) x
IsOffset-cons offsets pid pids x (p, (m, e)) = (p, (mem-cons_of_mem pid m, e))

module _ (start end : Offsets) where
  abbrev turns : Span → List ℤ → Span
  turns = foldl (widen start end)

  -- Above every end offset of the partition, and not above its start offset.
  abbrev pub Covers : ℤ → ℤ → ℤ → Type 0
  Covers earliest latest pid =
      ((s : ℤ) → find_id pid start ≡ some s → earliest ≤ℤ s)
      × ((e : ℤ) → find_id pid end ≡ some e → e ≤ℤ latest)

  Covers-wider : (a a' b b' : ℤ) → a' ≤ℤ a → b ≤ℤ b' → (pid : ℤ) → Covers a b pid → Covers a' b' pid
  Covers-wider a a' b b' h k pid (c, d) =
      (λ s e. ≤ℤ_trans a' a s h (c s e), λ e p. ≤ℤ_trans e b b' (d e p) k)

  turns-Covers :
      (span : Span) (pids : List ℤ)
      → span.first ≡ false
      → ((turns span pids).earliest ≤ℤ span.earliest)
        × (span.latest ≤ℤ (turns span pids).latest)
        × All (Covers (turns span pids).earliest (turns span pids).latest) pids
  unfolding widen
  turns-Covers span [] h = (omega arith, omega arith, tt)
  turns-Covers span (pid ∷ pids) h =
      let next = widen start end span pid in
      let out = turns next pids in
      let (down, low) = widen_start-Covers span (find_id pid start) h in
      let (up, high) = widen_end-Covers span (find_id pid end) in
      let (down2, up2, rest) = turns-Covers next pids refl in
      (
        ≤ℤ_trans out.earliest next.earliest span.earliest down2 down,
        ≤ℤ_trans span.latest next.latest out.latest up up2,
        (
          Covers-wider next.earliest out.earliest next.latest out.latest down2 up2 pid (low, high),
          rest,
        ),
      )

  turns-start :
      (span : Span) (pids : List ℤ)
      → span.first ≡ false
      → ((turns span pids).earliest ≡ span.earliest)
        ⊎ IsOffset start pids (turns span pids).earliest
  unfolding widen
  turns-start span [] h = inl refl
  turns-start span (pid ∷ pids) h =
      let next = widen start end span pid in
      let out = turns next pids in
      elim (turns-start next pids refl) [
        | inr later ↦ inr (IsOffset-cons start pid pids out.earliest later)
        | inl kept ↦ elim (start_cases span (find_id pid start) h) [
          | inl same ↦ inl (kept ∙ same)
          | inr here ↦ inr (pid, (mem-cons_self, here ∙ ap some (sym kept)))
        ]
      ]

  turns-end :
      (span : Span) (pids : List ℤ)
      → ((turns span pids).latest ≡ span.latest) ⊎ IsOffset end pids (turns span pids).latest
  unfolding widen
  turns-end span [] = inl refl
  turns-end span (pid ∷ pids) =
      let next = widen start end span pid in
      let out = turns next pids in
      elim (turns-end next pids) [
        | inr later ↦ inr (IsOffset-cons end pid pids out.latest later)
        | inl kept ↦ elim (end_cases span (find_id pid end)) [
          | inl same ↦ inl (kept ∙ same)
          | inr here ↦ inr (pid, (mem-cons_self, here ∙ ap some (sym kept)))
        ]
      ]

  first_found :
      (span : Span) (m : Option ℤ) (s : ℤ)
      → span.first ≡ true
      → m ≡ some s
      → m ≡ some (widen_start span m)
  first_found span m s h e = e ∙ ap some (sym (first_start span m s h e))

  abbrev none_yet : Span
  none_yet = record { earliest = pos 0; latest = pos 0; first = true }

  turns_first-start :
      (pid : ℤ) (pids : List ℤ) (s : ℤ)
      → find_id pid start ≡ some s
      → IsOffset start (pid ∷ pids) (turns none_yet (pid ∷ pids)).earliest
  unfolding widen
  turns_first-start pid pids s found =
      let next = widen start end none_yet pid in
      let out = turns next pids in
      elim (turns-start next pids refl) [
        | inr later ↦ IsOffset-cons start pid pids out.earliest later
        | inl kept ↦
            let here = first_found none_yet (find_id pid start) s refl found in
            (pid, (mem-cons_self, here ∙ ap some (sym kept)))
      ]

  turns_first-Covers :
      (pid : ℤ) (pids : List ℤ) (s : ℤ)
      → find_id pid start ≡ some s
      → All
          (Covers (turns none_yet (pid ∷ pids)).earliest (turns none_yet (pid ∷ pids)).latest)
          (pid ∷ pids)
  unfolding widen
  turns_first-Covers pid pids s found =
      let next = widen start end none_yet pid in
      let out = turns next pids in
      let here = first_start none_yet (find_id pid start) s refl found in
      let (up, high) = widen_end-Covers none_yet (find_id pid end) in
      let (down2, up2, rest) = turns-Covers next pids refl in
      let low = λ (x : ℤ) (e : find_id pid start ≡ some x).
        first_low next.earliest s x here (find_id pid start) found e in
      (
        Covers-wider next.earliest out.earliest next.latest out.latest down2 up2 pid (low, high),
        rest,
      )
    where
      first_low : (a s x : ℤ) → a ≡ s → (m : Option ℤ) → m ≡ some s → m ≡ some x → a ≤ℤ x
      first_low a s x h m e e2 = ground arith

  -- If the partition that the loop meets first has a start offset, then the earliest offset that
  -- `offsetSpan` returns is the start offset of one of the partitions, and no start offset of them
  -- is below it; and the latest one is 0 or the end offset of one of the partitions, and no end
  -- offset of them is above it.
  pub offset_span-Covers :
      (pid : ℤ) (pids : List ℤ) (s : ℤ)
      → find_id pid start ≡ some s
      → (IsOffset start (pid ∷ pids) (offset_span (pid ∷ pids) start end).0
          × (((offset_span (pid ∷ pids) start end).1 ≡ pos 0)
              ⊎ IsOffset end (pid ∷ pids) (offset_span (pid ∷ pids) start end).1))
        × All
            (Covers (offset_span (pid ∷ pids) start end).0 (offset_span (pid ∷ pids) start end).1)
            (pid ∷ pids)
  unfolding offset_span
  offset_span-Covers pid pids s found = (
    (turns_first-start pid pids s found, turns-end none_yet (pid ∷ pids)),
    turns_first-Covers pid pids s found,
  )

  turns_nought :
      (span : Span) (pids : List ℤ)
      → ((pid s : ℤ) → find_id pid start ≡ some s → pos 0 ≤ℤ s)
      → span.first ≡ false
      → span.earliest ≡ pos 0
      → (turns span pids).earliest ≡ pos 0
  unfolding widen
  turns_nought span [] h f e = e
  turns_nought span (pid ∷ pids) h f e =
      turns_nought (widen start end span pid) pids h refl (stays (find_id pid start) (h pid))
    where
      stays : (m : Option ℤ) → ((s : ℤ) → m ≡ some s → pos 0 ≤ℤ s) → widen_start span m ≡ pos 0
      stays none k = e
      stays (some s) k = let above = k s refl in ground arith

  -- If the partition that the loop meets first has no start offset, and no start offset is below
  -- zero, then the earliest offset that `offsetSpan` returns is zero, whatever the start offsets
  -- of the other partitions are.
  pub offset_span_missing :
      (pid : ℤ) (pids : List ℤ)
      → find_id pid start ≡ none
      → ((p s : ℤ) → find_id p start ≡ some s → pos 0 ≤ℤ s)
      → (offset_span (pid ∷ pids) start end).0 ≡ pos 0
  unfolding offset_span widen
  offset_span_missing pid pids missing h = turns_nought _ pids h refl (rw missing)
