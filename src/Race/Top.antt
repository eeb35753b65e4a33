-- ===== src/Race/Top.antt =====
-- What race_print_err_breakdown and race_print_extack of src/race.c print: the five error numbers with
-- the greatest counts, and the messages, the most frequent first.
use gatebench.Base.{
  ℕ, zero, suc, ◌+◌, ◌&&◌, Option, none, some, List, [], ◌∷◌, ltb, ◌==◌, if◌then◌else◌, set, get_or,
  length, replicate, drop,
}
use gatebench.Race.Extack.{ExtackEntry, ExtackStats}

-- struct race_err_top
pub record ErrTop : Type 0 where
  pub err : ℕ
  pub count : ℕ

module _ {A : Type 0} (count_of : A → ℕ) where
  -- for (j = i + 1; ...): the entry of i, and those behind it, exchanged where the later one is greater.
  unfoldable pub exchange_behind : A → List A → A × List A
  exchange_behind x [] = (x, [])
  exchange_behind x (y ∷ ys) =
      let (z, zs) = exchange_behind y ys in
      let (z', zs') = exchange_behind x ys in
      if ltb (count_of x) (count_of y) then (z, x ∷ zs) else (z', y ∷ zs')

  -- for (i = 0; i < n; i++), n being the number of entries
  unfoldable pub exchange_sort : ℕ → List A → List A
  unfolding exchange_behind
  exchange_sort zero xs = xs
  exchange_sort (suc n) [] = []
  exchange_sort (suc n) (x ∷ xs) = let (z, zs) = exchange_behind x xs in z ∷ exchange_sort n zs

-- for (i = 1; i < topn; i++) if (top[i].count < top[min_idx].count) min_idx = i; from index i on, with
-- the count of min_idx
unfoldable pub min_from : List ErrTop → ℕ → ℕ → ℕ → ℕ
min_from [] i min_idx low = min_idx
min_from (t ∷ ts) i min_idx low =
    let later = min_from ts (i + 1) i t.count in
    let same = min_from ts (i + 1) min_idx low in if ltb t.count low then later else same

abbrev pub none_yet : ErrTop
none_yet = record { err = 0; count = 0 }

abbrev pub min_idx : List ErrTop → ℕ
min_idx [] = 0
min_idx (t ∷ ts) = min_from ts 1 0 t.count

-- The body of the loop over the error numbers.
abbrev pub offer : ErrTop → List ErrTop → List ErrTop
offer new top =
    if new.count == 0
    then top
    else if ltb (get_or top (min_idx top) none_yet).count new.count
    then set top (min_idx top) new
    else top

-- The loop, from error number err on.
unfoldable pub offer_all : ℕ → List ℕ → List ErrTop → List ErrTop
unfolding min_from
offer_all err [] top = top
offer_all err (c ∷ counts) top =
    offer_all (err + 1) counts (offer (record { err = err; count = c }) top)

-- The loop that prints ends at the first count of 0.
unfoldable pub printed_tops : List ErrTop → List ErrTop
printed_tops [] = []
printed_tops (t ∷ ts) = let rest = printed_tops ts in if t.count == 0 then [] else t ∷ rest

abbrev pub topn : ℕ
topn = 5

-- The sorted array of the five, from the counts by error number, that of 0 left out.
unfoldable pub top_errors : List ℕ → List ErrTop
unfolding offer_all exchange_sort
top_errors err_counts =
    exchange_sort (λ (t : ErrTop). t.count) topn
      (offer_all 1 (drop 1 err_counts) (replicate topn none_yet))

-- The lines of the breakdown; `none` for "none".
unfoldable pub race_print_err_breakdown : ℕ → List ℕ → Option (List ErrTop)
unfolding top_errors printed_tops
race_print_err_breakdown total err_counts =
    if total == 0 then none else some (printed_tops (top_errors err_counts))

-- if (stats->entries[i].count == 0) continue; sorted[used++] = ...
unfoldable pub used_entries : List ExtackEntry → List ExtackEntry
used_entries [] = []
used_entries (e ∷ es) = let rest = used_entries es in if e.count == 0 then rest else e ∷ rest

-- The lines with their count and, last, the count of the others; `none` for "none".
unfoldable pub race_print_extack : ExtackStats → Option (List ExtackEntry × ℕ)
unfolding used_entries exchange_sort
race_print_extack stats =
    let used = used_entries stats.entries in
    if (length used == 0) && (stats.other == 0)
    then none
    else some (exchange_sort (λ (e : ExtackEntry). e.count) (length used) used, stats.other)
