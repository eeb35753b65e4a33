-- ===== src/Race/TopFive.antt =====
-- What the breakdown of errors says.
use gatebench.Base.{
  ℕ, suc, ◌+◌, ◌≤◌, ◌<◌, ◌≡◌, ◌∙◌, refl, ap, sym, subst, false, some, List, ◌∷◌, ◌==◌, length, All,
  arith, ◌⊎◌, inl, inr, get_elem?, replicate,
}
use gatebench.Race.Top.{
  ErrTop, none_yet, offer_all, topn, top_errors, printed_tops, race_print_err_breakdown,
  exchange_sort,
}
use gatebench.Race.Exchange.{Lists, Descends, Ordered, exchange_sort-Ordered}
use gatebench.Race.Greatest.{Low, Fate}
use gatebench.Race.Breakdown.{
  of_top, offer_all-length, each_offered-Fate, offer_all-All, printed-Lists, printed-all,
  printed-All, printed-Descends,
}

-- The count is that of the error number, or nothing.
abbrev IsFilled : List ℕ → ErrTop → Type 0
IsFilled counts t = (t.count ≡ 0) ⊎ (get_elem? counts t.err ≡ some t.count)

-- The count is that of the error number, and above 0.
abbrev pub IsGenuine : List ℕ → ErrTop → Type 0
IsGenuine counts t = (0 < t.count) × (get_elem? counts t.err ≡ some t.count)

IsFilled-IsGenuine :
    (counts : List ℕ) (t : ErrTop) → (t.count == 0) ≡ false → IsFilled counts t → IsGenuine counts t
IsFilled-IsGenuine counts t n (inl z) = absurd (ground arith)
IsFilled-IsGenuine counts t n (inr q) = (ground arith, q)

module _ (first : ℕ) (counts : List ℕ) where
  five : List ErrTop
  five = offer_all 1 counts (replicate topn none_yet)

  sorted : Ordered of_top five (exchange_sort of_top topn five)
  unfolding five
  sorted =
      exchange_sort-Ordered of_top topn five
        (omega (arith, offer_all-length counts 1 (replicate topn none_yet) (omega arith)))

  sorted_length : length (exchange_sort of_top topn five) ≡ 5
  unfolding five
  sorted_length =
      sorted.moved.same_length ∙ offer_all-length counts 1 (replicate topn none_yet) (omega arith)

  sorted-Fate :
      (i c : ℕ)
      → get_elem? counts i ≡ some c
      → Fate (record { err = suc i; count = c }) (exchange_sort of_top topn five)
  unfolding five
  sorted-Fate i c q =
      elim (each_offered-Fate counts 1 (replicate topn none_yet) i (suc i) c (omega arith) q
        (omega arith)) [
          | inl l ↦ inl (sorted.moved.lists (record { err = suc i; count = c }) l)
          | inr b ↦ inr (sorted.moved.each (λ (t : ErrTop). c ≤ t.count) b)
        ]

  five-All : All (IsFilled (first ∷ counts)) five
  unfolding five
  five-All =
      offer_all-All (IsFilled (first ∷ counts)) counts 1 (replicate topn none_yet) (omega arith)
        (λ i c q.
          (let at_i : suc i ≡ 1 + i = omega arith in
            subst (λ k. IsFilled (first ∷ counts) (record { err = k; count = c })) at_i (inr q)))
        (inl refl, (inl refl, (inl refl, (inl refl, (inl refl, tt)))))

  -- Of the counts by error number, that of 0 aside, with a total that is not 0: the breakdown has
  -- lines in descending order of their counts, each of them with the count of its error number, above 0, and
  -- a given error number with a count above 0 has its line, or there are five lines and none of them
  -- has a smaller count.
  pub race_print_err_breakdown-top :
      (total i c : ℕ)
      → (total == 0) ≡ false
      → get_elem? counts i ≡ some c
      → 0 < c
      → (lines : List ErrTop) × (race_print_err_breakdown total (first ∷ counts) ≡ some lines)
        × Descends of_top lines
        × All (IsGenuine (first ∷ counts)) lines
        × (Lists (record { err = suc i; count = c }) lines ⊎ ((length lines ≡ 5) × Low c lines))
  unfolding race_print_err_breakdown top_errors five
  race_print_err_breakdown-top total i c n q p =
      let tops = exchange_sort of_top topn five in
      (
        printed_tops tops,
        rw n refl,
        printed-Descends tops sorted.descends,
        printed-All (IsFilled (first ∷ counts)) (IsGenuine (first ∷ counts))
            (IsFilled-IsGenuine (first ∷ counts)) tops
            (sorted.moved.each (IsFilled (first ∷ counts)) five-All),
        elim (sorted-Fate i c q) [
          | inl l ↦ inl (printed-Lists tops (record { err = suc i; count = c }) sorted.descends p l)
          | inr b ↦
              let all = printed-all tops c p b in
              inr (ap (length {0}) all ∙ sorted_length, subst (Low c) (sym all) b)
        ],
      )
