-- ===== src/Kernel/Latest.antt =====
-- packages/core/src/kernel.ts: the TIM that `selectLatest` picks is the last candidate in Notary
-- order, and there is one whenever there is a candidate.
use arky_foundation.Sorting.{sort}
use arky_foundation.Sorting.Sorted.{
  last-sort-eq-none_iff, last-AtMost, sort-All, sort-IsSorted, last-All, All-sort,
}
use arky_foundation.Number.{num_eq, Number}
use arky_foundation.Engine.{Engine}
use mathlib.Core.List.{Memᴰ}
use arky_foundation.Common.{
  refl, sym, not, ap, ◌∙◌, if◌then◌else◌, ◌↔◌, List, Bool-cases, inl, inr, keep, All, ◌≡◌, ◌≢◌, [],
  none, Text, Ordering, arith, text_eq_iff, text_eq, or_else, if◌then◌else◌, Bool, not, Option, ◌∙◌,
  List, ap, All, sym, some, keep, ◌∷◌, true, Bool-cases, inl, inr, All-map, All-⊥,
}
use arky_foundation.Sorting.Comparison.{
  Ranks, Ranks-by, Ranks-followed_by, followed_by, compare_texts, text_lt_iff, compare_texts-eq_iff,
  Ranks-compare_texts, compare_numbers, Ranks-compare_numbers, IsNumber,
}
use arky_foundation.Kernel.Types.{MeasureSpec, Tim}
use arky_foundation.Kernel.Select.{
  meets, in_window, candidates, select_latest, lamport, text_order, number_order, cid_order,
  notary_order,
}

-- A TIM that can be ranked: its Lamport clock is a number, and it has a cid.
pub record IsRanked (t : Tim) : Type 0 where
  pub clocked : IsNumber (lamport t)
  pub named : t.cid ≢ none

abbrev cid_text : Tim → Text
cid_text t = or_else t.cid []

-- The Notary tuple, one component after another.
abbrev tuple_order : Tim → Tim → Ordering
tuple_order a b = followed_by (compare_texts a.ts b.ts) (
    followed_by (compare_numbers (lamport a) (lamport b))
      (followed_by (compare_texts a.identity b.identity) (compare_texts (cid_text a) (cid_text b))))

tuple_order-Ranks : Ranks IsRanked tuple_order
tuple_order-Ranks =
    Ranks-followed_by IsRanked _ _
      (Ranks-by IsRanked _ compare_texts (λ t. t.ts) (λ a h. tt) Ranks-compare_texts)
      (Ranks-followed_by IsRanked _ _
        (Ranks-by IsRanked IsNumber compare_numbers lamport (λ a h. h.clocked)
          Ranks-compare_numbers)
        (Ranks-followed_by IsRanked _ _
          (Ranks-by IsRanked _ compare_texts (λ t. t.identity) (λ a h. tt) Ranks-compare_texts)
          (Ranks-by IsRanked _ compare_texts cid_text (λ a h. tt) Ranks-compare_texts)))

text_order-step :
    (a b : Text) (o : Ordering)
    → (if not (text_eq a b) then text_order a b else o) ≡ followed_by (compare_texts a b) o
unfolding text_order
text_order-step a b o = ground (arith, text_eq_iff a b, compare_texts-eq_iff a b, text_lt_iff a b)

number_order-step :
    (a b : Number) (o : Ordering)
    → IsNumber a
    → IsNumber b
    → (if not (num_eq a b) then number_order a b else o) ≡ followed_by (compare_numbers a b) o
unfolding number_order compare_numbers num_eq
number_order-step Number.nan b o h k = cc
number_order-step a Number.nan o h k = cc
number_order-step (Number.infinity n) b o h k = ground arith
number_order-step (Number.finite n s e) b o h k = ground arith

cid_order-step :
    (a b : Option Text)
    → a ≢ none
    → b ≢ none
    → cid_order a b ≡ compare_texts (or_else a []) (or_else b [])
unfolding cid_order
cid_order-step none b h k = absurd (h refl)
cid_order-step (some a) none h k = absurd (k refl)
cid_order-step (some a) (some b) h k =
    ground (arith, text_eq_iff a b, compare_texts-eq_iff a b, text_lt_iff a b)

-- The comparator of the code is the lexicographic order of the tuple.
notary_order-eq-tuple_order :
    (a b : Tim) → IsRanked a → IsRanked b → notary_order a b ≡ tuple_order a b
unfolding notary_order
notary_order-eq-tuple_order a b h k =
    text_order-step a.ts b.ts _
    ∙ ap (followed_by (compare_texts a.ts b.ts)) (
        number_order-step (lamport a) (lamport b) _ h.clocked k.clocked
        ∙ ap (followed_by (compare_numbers (lamport a) (lamport b))) (
            text_order-step a.identity b.identity _
            ∙ ap (followed_by (compare_texts a.identity b.identity))
                (cid_order-step a.cid b.cid h.named k.named)))

pub notary_order-Ranks : Ranks IsRanked notary_order
notary_order-Ranks = record {
  flipped = λ a b p q.
      rw (notary_order-eq-tuple_order a b p q, notary_order-eq-tuple_order b a q p)
        (tuple_order-Ranks.flipped a b p q);
  lt_trans = λ a b c p q r h k.
      notary_order-eq-tuple_order a c p r
      ∙ tuple_order-Ranks.lt_trans a b c p q r (sym (notary_order-eq-tuple_order a b p q) ∙ h)
          (sym (notary_order-eq-tuple_order b c q r) ∙ k);
  eq_left = λ a b c p q r h.
      notary_order-eq-tuple_order a c p r
      ∙ tuple_order-Ranks.eq_left a b c p q r (sym (notary_order-eq-tuple_order a b p q) ∙ h)
      ∙ sym (notary_order-eq-tuple_order b c q r);
}

keep-All : (P : Tim → Type 0) (p : Tim → Bool) (ts : List Tim) → All P ts → All P (keep p ts)
keep-All P p [] h = tt
keep-All P p (t ∷ ts) h = elim (Bool-cases (p t)) [
  | inl e ↦ rw e (h.0, keep-All P p ts h.1)
  | inr e ↦ rw e (keep-All P p ts h.1)
]

-- What holds of all that is kept holds of each element that passes the test.
keep-All_elim :
    (P : Tim → Type 0) (p : Tim → Bool) (ts : List Tim)
    → All P (keep p ts)
    → All (λ t. p t ≡ true → P t) ts
keep-All_elim P p [] h = tt
keep-All_elim P p (t ∷ ts) h = elim (Bool-cases (p t)) [
  | inl e ↦ let h' : P t × All P (keep p ts) = rw e at h in ((λ _. h'.0), keep-All_elim P p ts h'.1)
  | inr e ↦ ((λ q. cc), keep-All_elim P p ts (rw e at h))
]

keep-tested :
    (P : Tim → Type 0) (p : Tim → Bool) (ts : List Tim)
    → All P ts
    → All (λ t. P t × (p t ≡ true)) (keep p ts)
keep-tested P p [] h = tt
keep-tested P p (t ∷ ts) h = elim (Bool-cases (p t)) [
  | inl e ↦ rw e ((h.0, e), keep-tested P p ts h.1)
  | inr e ↦ rw e (keep-tested P p ts h.1)
]

All-Mem : (ts us : List Tim) → ((t : Tim) → Memᴰ t ts → Memᴰ t us) → All (λ t. Memᴰ t us) ts
All-Mem [] us h = tt
All-Mem (t ∷ ts) us h = (h t (Memᴰ.head refl), All-Mem ts us (λ u m. h u (Memᴰ.tail m)))

module _ ⦃engine : Engine⦄ where
  -- A candidate of the list that passes the filters of the measure.
  abbrev pub IsCandidate : MeasureSpec → List Tim → Text → Tim → Type 0
  IsCandidate spec tims eval_time t =
      Memᴰ t tims × (meets spec.require t ≡ true) × (in_window spec.window eval_time t ≡ true)

  candidates-IsCandidate :
      (spec : MeasureSpec) (tims : List Tim) (eval_time : Text)
      → All (IsCandidate spec tims eval_time) (candidates spec tims eval_time)
  unfolding candidates
  candidates-IsCandidate spec tims eval_time =
      All-map _ _ (candidates spec tims eval_time) (λ t h. (h.0.0, h.0.1, h.1))
        (keep-tested _ (in_window spec.window eval_time) (keep (meets spec.require) tims)
          (keep-tested _ (meets spec.require) tims (All-Mem tims tims (λ t m. m))))

  candidates-All :
      (P : Tim → Type 0) (spec : MeasureSpec) (tims : List Tim) (eval_time : Text)
      → All P tims
      → All P (candidates spec tims eval_time)
  unfolding candidates
  candidates-All P spec tims eval_time h = keep-All P _ _ (keep-All P (meets spec.require) tims h)

  candidates-All_elim :
      (P : Tim → Type 0) (spec : MeasureSpec) (tims : List Tim) (eval_time : Text)
      → All P (candidates spec tims eval_time)
      → All (λ t. meets spec.require t ≡ true → in_window spec.window eval_time t ≡ true → P t) tims
  unfolding candidates
  candidates-All_elim P spec tims eval_time h =
      keep-All_elim _ (meets spec.require) tims
        (keep-All_elim P (in_window spec.window eval_time) (keep (meets spec.require) tims) h)

  All-excluded :
      (spec : MeasureSpec) (tims : List Tim) (eval_time : Text)
      → All (λ t. meets spec.require t ≡ true → in_window spec.window eval_time t ≡ true → ⊥) tims
      → All (λ t. ⊥) (candidates spec tims eval_time)
  unfolding candidates
  All-excluded spec tims eval_time h =
      All-map _ _ (candidates spec tims eval_time) (λ t k. k.0.0 k.0.1 k.1)
        (keep-tested _ (in_window spec.window eval_time) (keep (meets spec.require) tims)
          (keep-tested _ (meets spec.require) tims h))

  -- The TIM selected is a candidate, and no candidate comes after it in Notary order, if every TIM
  -- has a cid and a Lamport clock that is a number.
  pub select_latest-IsLatest :
      (spec : MeasureSpec) (tims : List Tim) (eval_time : Text) (r : Tim)
      → All IsRanked tims
      → select_latest spec tims eval_time ≡ some r
      → IsCandidate spec tims eval_time r
        × All
            (λ t.
              meets spec.require t ≡ true
              → in_window spec.window eval_time t ≡ true
              → notary_order r t ≢ Ordering.lt)
            tims
  unfolding select_latest
  select_latest-IsLatest spec tims eval_time r h e =
      let c = candidates spec tims eval_time in
      let ranked : All IsRanked c = candidates-All IsRanked spec tims eval_time h in
      let (_, at_most) =
        last-AtMost notary_order IsRanked notary_order-Ranks (sort notary_order c) r
          (sort-All notary_order IsRanked c ranked)
          (sort-IsSorted notary_order IsRanked notary_order-Ranks c ranked) e in
      (
        last-All notary_order (IsCandidate spec tims eval_time) (sort notary_order c) r
            (sort-All notary_order _ c (candidates-IsCandidate spec tims eval_time)) e,
        candidates-All_elim _ spec tims eval_time (All-sort notary_order _ c at_most),
      )

  -- There is none exactly when no TIM passes the filters.
  select_latest-eq-none_iff :
      (spec : MeasureSpec) (tims : List Tim) (eval_time : Text)
      → (select_latest spec tims eval_time ≡ none)
        ↔ All
            (λ t. (meets spec.require t ≡ true) → (in_window spec.window eval_time t ≡ true) → ⊥)
            tims
  unfolding select_latest
  select_latest-eq-none_iff spec tims eval_time =
      let c = candidates spec tims eval_time in
      let iff = last-sort-eq-none_iff notary_order c in
      (
        λ e. candidates-All_elim (λ t. ⊥) spec tims eval_time (rw (iff.0 e) tt),
        λ h. iff.1 (All-⊥ c (All-excluded spec tims eval_time h)),
      )
