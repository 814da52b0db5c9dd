-- ===== src/Mining/Database/Itemsets.antt =====
-- The search over the lists of a database finds the itemsets of high utility: all of them, whatever the
-- co-occurrences let it skip, and nothing else.
use pocket_data_mining.Base.{
  ℕ, zero, suc, ◌≤◌, ◌<◌, ◌^◌, ◌≡◌, ◌≢◌, refl, sym, ◌∙◌, ap, Bool, true, false, not, ◌&&◌, ◌||◌,
  Option, none, some, List, [], ◌∷◌, ◌++◌, length, ltb, keep_if, keep_if_nil, keep_if_cons,
  if◌then◌else◌, Bool-cases, inl, inr, arith,
}
use mathlib.Core.List.{append_assoc}
use pocket_data_mining.Base.Words.{add_i64}
use pocket_data_mining.Types.{UlEntry, is_high_utility}
use pocket_data_mining.Preprocessing.TwuFilter.{FilteredTransaction}
use pocket_data_mining.Mining.UlJoin.{join_entries}
use pocket_data_mining.Mining.UlJoin.Join.{Ascending, find, share}
use pocket_data_mining.Mining.UlJoin.Merge.{sum_i64}
use pocket_data_mining.Mining.Search.{Cuts, last_item}
use pocket_data_mining.Mining.Search.Nodes.{header, join_node}
use pocket_data_mining.Mining.Search.Reference.{Found, children, own, children_skip, children_join}
use pocket_data_mining.Mining.Search.Pruning.{every, every_cons, every_nil}
use pocket_data_mining.Mining.Database.{
  utility_of, entry_for, cons_some, entries, add_found, utility_from, utility, is_found, occurs,
  is_high, itemsets, high_utility, AscendingTids, Unique, Has, list_of, lists_after,
}
use pocket_data_mining.Mining.Database.Unique.{
  Has-snoc, Has-last, Unique-assoc, Unique-without, Unique-kept, Unique-next, Unique-cross,
}
use pocket_data_mining.Mining.Database.Entries.{
  find_tx, entry_at, entries-Ascending, find-entries, last_item_snoc, IsPrefix, join-entries,
}

-- Cuts that only skip pairs.
abbrev pub skip_cuts : (ℕ → ℕ → ℕ → Bool) → Cuts
skip_cuts skip = record { skip = skip; reportable = λ _. true; extensible = λ _. true }

-- No itemset with both items is of high utility.
abbrev pub IsSkippable : ℕ → List FilteredTransaction → ℕ → ℕ → Type 0
IsSkippable min_utility fs x y =
    (xs : List ℕ) → Unique xs → Has x xs → Has y xs → is_high min_utility fs xs ≡ false

sum_i64-entries :
    (acc : ℕ) (xs : List ℕ) (fs : List FilteredTransaction)
    → sum_i64 (λ e. e.iutils) acc (entries xs fs) ≡ utility_from acc xs fs
unfolding entries utility_from
sum_i64-entries acc xs [] = refl
sum_i64-entries acc xs (f ∷ fs) = go (utility_of xs f.items) (λ a. sum_i64-entries a xs fs)
  where
    go :
        (o : Option ℕ)
        → ((a : ℕ) → sum_i64 (λ e. e.iutils) a (entries xs fs) ≡ utility_from a xs fs)
        → sum_i64 (λ e. e.iutils) acc (cons_some (entry_for f (last_item xs) o) (entries xs fs))
          ≡ utility_from (add_found acc o) xs fs
    go none h = h acc
    go (some u) h = h (add_i64 acc u)

pub length-entries-le :
    (xs : List ℕ) (fs : List FilteredTransaction) → length (entries xs fs) ≤ length fs
unfolding entries
length-entries-le xs [] = omega arith
length-entries-le xs (f ∷ fs) = go (utility_of xs f.items) (length-entries-le xs fs)
  where
    go :
        (o : Option ℕ)
        → length (entries xs fs) ≤ length fs
        → length (cons_some (entry_for f (last_item xs) o) (entries xs fs)) ≤ suc (length fs)
    go none h = omega arith
    go (some u) h = omega arith

pub occurs-length :
    (xs : List ℕ) (fs : List FilteredTransaction) → ltb 0 (length (entries xs fs)) ≡ occurs xs fs
unfolding entries occurs
occurs-length xs [] = refl
occurs-length xs (f ∷ fs) = go (utility_of xs f.items) (occurs-length xs fs)
  where
    go :
        (o : Option ℕ)
        → ltb 0 (length (entries xs fs)) ≡ occurs xs fs
        → ltb 0 (length (cons_some (entry_for f (last_item xs) o) (entries xs fs)))
          ≡ (is_found o || occurs xs fs)
    go none h = h
    go (some u) h = ground arith

module _ (fs : List FilteredTransaction) (min_utility : ℕ) (short : length fs < 2 ^ 32) where
  high_one : List ℕ → List Found
  high_one xs = if is_high min_utility fs xs then (xs, utility xs fs) ∷ [] else []

  header-is_high :
      (xs : List ℕ)
      → (is_high_utility (header (xs, entries xs fs)) min_utility && true)
        ≡ is_high min_utility fs xs
  unfolding is_high_utility
  header-is_high xs =
      ground (arith, sum_i64-entries 0 xs fs, occurs-length xs fs, length-entries-le xs fs, short)

  own-high :
      (skip : ℕ → ℕ → ℕ → Bool) (xs : List ℕ)
      → own (skip_cuts skip) min_utility (xs, entries xs fs) ≡ high_one xs
  unfolding high_one
  own-high skip xs = rw (header-is_high xs, sum_i64-entries 0 xs fs) refl

  high_utility_cons :
      (xs : List ℕ) (xss : List (List ℕ))
      → high_utility min_utility fs (xs ∷ xss) ≡ high_one xs ++ high_utility min_utility fs xss
  unfolding high_utility high_one
  high_utility_cons xs xss = elim (Bool-cases (is_high min_utility fs xs)) [
    | inl e ↦ rw e refl
    | inr e ↦ rw e refl
  ]

  high_utility-append :
      (xss yss : List (List ℕ))
      → high_utility min_utility fs (xss ++ yss)
        ≡ high_utility min_utility fs xss ++ high_utility min_utility fs yss
  high_utility-append [] yss = unfold high_utility in refl
  high_utility-append (xs ∷ xss) yss =
      rw (high_utility_cons xs (xss ++ yss), high_utility_cons xs xss, high_utility-append xss yss)
        (sym (
          append_assoc (high_one xs) (high_utility min_utility fs xss)
            (high_utility min_utility fs yss)))

  -- What is found over a list of items, after a prefix.
  found_over : List ℕ → List ℕ → List Found
  unfolding itemsets
  found_over prefix items = high_utility min_utility fs (itemsets prefix items)

  found_over_cons :
      (prefix : List ℕ) (x : ℕ) (xs : List ℕ)
      → found_over prefix (x ∷ xs)
        ≡ (high_one (prefix ++ x ∷ []) ++ found_over (prefix ++ x ∷ []) xs) ++ found_over prefix xs
  unfolding found_over itemsets
  found_over_cons prefix x xs =
      high_utility_cons (prefix ++ x ∷ []) (itemsets (prefix ++ x ∷ []) xs ++ itemsets prefix xs)
      ∙ ap (λ l. high_one (prefix ++ x ∷ []) ++ l)
          (high_utility-append (itemsets (prefix ++ x ∷ []) xs) (itemsets prefix xs))
      ∙ sym (
          append_assoc (high_one (prefix ++ x ∷ [])) (found_over (prefix ++ x ∷ []) xs)
            (found_over prefix xs))

  found_over_nil : (prefix : List ℕ) → found_over prefix [] ≡ []
  unfolding found_over itemsets high_utility
  found_over_nil prefix = refl

  high_one_low : (xs : List ℕ) → is_high min_utility fs xs ≡ false → high_one xs ≡ []
  unfolding high_one
  high_one_low xs e = rw e refl

  -- Below a prefix with both items nothing is found.
  found_over_skippable :
      (x y : ℕ) (prefix items : List ℕ)
      → IsSkippable min_utility fs x y
      → Has x prefix
      → Has y prefix
      → Unique (prefix ++ items)
      → found_over prefix items ≡ []
  found_over_skippable x y prefix [] low hx hy u = found_over_nil prefix
  found_over_skippable x y prefix (z ∷ items) low hx hy u =
      rw
        (
          found_over_cons prefix z items,
          high_one_low (prefix ++ z ∷ []) (
              low (prefix ++ z ∷ []) (Unique-next prefix z items u) (Has-snoc x z prefix hx)
                (Has-snoc y z prefix hy)),
          found_over_skippable x y (prefix ++ z ∷ []) items low (Has-snoc x z prefix hx)
              (Has-snoc y z prefix hy) (Unique-assoc prefix z items u),
          found_over_skippable x y prefix items low hx hy (Unique-without prefix z items u),
        )
        refl

  abbrev kept : (ℕ → ℕ → ℕ → Bool) → ℕ → List ℕ → List ℕ
  kept skip x = keep_if (λ y. not (skip x y min_utility))

  -- Items that may be skipped beside x make no difference.
  found_over-kept :
      (skip : ℕ → ℕ → ℕ → Bool) (x : ℕ) (prefix items : List ℕ)
      → ((y : ℕ) → x ≢ y → skip x y min_utility ≡ true → IsSkippable min_utility fs x y)
      → Has x prefix
      → Unique (prefix ++ items)
      → found_over prefix (kept skip x items) ≡ found_over prefix items
  found_over-kept skip x prefix [] sound hx u =
      ap (found_over prefix) (keep_if_nil (λ y. not (skip x y min_utility)))
  found_over-kept skip x prefix (y ∷ items) sound hx u =
      ap (found_over prefix) (keep_if_cons (λ z. not (skip x z min_utility)) y items)
      ∙ elim (Bool-cases (skip x y min_utility)) [
        | inl skipped ↦
            rw
              (
                skipped,
                found_over_cons prefix y items,
                high_one_low (prefix ++ y ∷ []) (
                    sound y (Unique-cross x prefix y items u hx) skipped (prefix ++ y ∷ [])
                      (Unique-next prefix y items u) (Has-snoc x y prefix hx) (Has-last y prefix)),
                found_over_skippable x y (prefix ++ y ∷ []) items
                    (sound y (Unique-cross x prefix y items u hx) skipped) (Has-snoc x y prefix hx)
                    (Has-last y prefix) (Unique-assoc prefix y items u),
              )
              (found_over-kept skip x prefix items sound hx (Unique-without prefix y items u))
        | inr joined ↦
            rw
              (
                joined,
                found_over_cons prefix y (kept skip x items),
                found_over_cons prefix y items,
                found_over-kept skip x (prefix ++ y ∷ []) items sound (Has-snoc x y prefix hx)
                    (Unique-assoc prefix y items u),
                found_over-kept skip x prefix items sound hx (Unique-without prefix y items u),
              )
              refl
      ]

  entries-IsPrefix : (xs : List ℕ) → AscendingTids fs → IsPrefix fs xs (entries xs fs)
  entries-IsPrefix xs h tid = ap share (find-entries tid xs fs h)

  join_list_of :
      (prefix : List ℕ) (x y : ℕ) (ps : List UlEntry)
      → AscendingTids fs
      → Ascending ps
      → IsPrefix fs prefix ps
      → join_node ps (list_of fs (prefix ++ x ∷ [])) (list_of fs (prefix ++ y ∷ []))
        ≡ list_of fs ((prefix ++ x ∷ []) ++ y ∷ [])
  join_list_of prefix x y ps h hp hq =
      ap
        (λ i. (
          (prefix ++ x ∷ []) ++ i ∷ [],
          (join_entries ps (entries (prefix ++ x ∷ []) fs) (entries (prefix ++ y ∷ []) fs)).result,
        ))
        (last_item_snoc prefix y)
      ∙ ap (λ es. ((prefix ++ x ∷ []) ++ y ∷ [], es)) (join-entries fs prefix x y ps h hp hq)

  module _ (skip : ℕ → ℕ → ℕ → Bool) where
    skipped-items :
        (prefix : List ℕ) (x y : ℕ)
        → skip (last_item (prefix ++ x ∷ [])) (last_item (prefix ++ y ∷ [])) min_utility
          ≡ skip x y min_utility
    skipped-items prefix x y = rw (last_item_snoc prefix x, last_item_snoc prefix y) refl

    children-lists_after :
        (prefix : List ℕ) (x : ℕ) (items : List ℕ) (ps : List UlEntry)
        → AscendingTids fs
        → Ascending ps
        → IsPrefix fs prefix ps
        → children
            (skip_cuts skip)
            min_utility
            ps
            (list_of fs (prefix ++ x ∷ []))
            (lists_after fs prefix items)
          ≡ lists_after fs (prefix ++ x ∷ []) (kept skip x items)
    children-lists_after prefix x [] ps h hp hq =
        unfold children in
        sym (ap (lists_after fs (prefix ++ x ∷ [])) (keep_if_nil (λ y. not (skip x y min_utility))))
    children-lists_after prefix x (y ∷ items) ps h hp hq =
        elim (Bool-cases (skip x y min_utility)) [
          | inl skipped ↦
              children_skip (skip_cuts skip) min_utility ps _ (list_of fs (prefix ++ y ∷ []))
                (lists_after fs prefix items) (skipped-items prefix x y ∙ skipped)
              ∙ children-lists_after prefix x items ps h hp hq
              ∙ rw (keep_if_cons (λ z. not (skip x z min_utility)) y items, skipped) refl
          | inr joined ↦
              children_join (skip_cuts skip) min_utility ps _ (list_of fs (prefix ++ y ∷ []))
                (lists_after fs prefix items) (skipped-items prefix x y ∙ joined)
              ∙ ap
                  (λ n.
                    n
                    ∷ children (skip_cuts skip) min_utility ps (list_of fs (prefix ++ x ∷ []))
                        (lists_after fs prefix items))
                  (join_list_of prefix x y ps h hp hq)
              ∙ ap (λ l. list_of fs ((prefix ++ x ∷ []) ++ y ∷ []) ∷ l)
                  (children-lists_after prefix x items ps h hp hq)
              ∙ rw (keep_if_cons (λ z. not (skip x z min_utility)) y items, joined) refl
        ]

    length-kept-le : (x : ℕ) (items : List ℕ) → length (kept skip x items) ≤ length items
    length-kept-le x [] = omega (arith, ap length (keep_if_nil (λ y. not (skip x y min_utility))))
    length-kept-le x (y ∷ items) =
        rw (keep_if_cons (λ z. not (skip x z min_utility)) y items)
          (ground (arith, length-kept-le x items))

    every-found :
        (fuel : ℕ) (prefix items : List ℕ) (ps : List UlEntry)
        → AscendingTids fs
        → ((x y : ℕ) → x ≢ y → skip x y min_utility ≡ true → IsSkippable min_utility fs x y)
        → length items ≤ fuel
        → Ascending ps
        → IsPrefix fs prefix ps
        → Unique (prefix ++ items)
        → every (skip_cuts skip) min_utility fuel ps (lists_after fs prefix items)
          ≡ found_over prefix items
    every-found fuel prefix [] ps h sound le hp hq u =
        every_nil (skip_cuts skip) min_utility fuel ps ∙ sym (found_over_nil prefix)
    every-found zero prefix (x ∷ items) ps h sound le hp hq u = absurd (omega arith)
    every-found (suc fuel) prefix (x ∷ items) ps h sound le hp hq u =
        rw
          (
            every_cons (skip_cuts skip) min_utility fuel ps (list_of fs (prefix ++ x ∷ []))
                (lists_after fs prefix items),
            own-high skip (prefix ++ x ∷ []),
            children-lists_after prefix x items ps h hp hq,
            every-found fuel (prefix ++ x ∷ []) (kept skip x items) (entries (prefix ++ x ∷ []) fs)
                h sound (omega (arith, length-kept-le x items))
                (entries-Ascending (prefix ++ x ∷ []) fs h) (entries-IsPrefix (prefix ++ x ∷ []) h)
                (Unique-kept (λ y. not (skip x y min_utility)) (prefix ++ x ∷ []) items
                  (Unique-assoc prefix x items u)),
            every-found fuel prefix items ps h sound (omega arith) hp hq
                (Unique-without prefix x items u),
            found_over-kept skip x (prefix ++ x ∷ []) items (sound x) (Has-last x prefix)
                (Unique-assoc prefix x items u),
            found_over_cons prefix x items,
          )
          refl

    -- On the lists of the single items of transactions with rising ids, the search of every node whose
    -- pair is not skipped finds, in its order and with their utilities, those itemsets over these
    -- items that are of high utility, where a pair is only skipped if no itemset with both items is.
    pub every-high_utility :
        (items : List ℕ)
        → AscendingTids fs
        → ((x y : ℕ) → x ≢ y → skip x y min_utility ≡ true → IsSkippable min_utility fs x y)
        → Unique items
        → every (skip_cuts skip) min_utility (length items) [] (lists_after fs [] items)
          ≡ high_utility min_utility fs (itemsets [] items)
    unfolding found_over find utility_of
    every-high_utility items h sound u =
        every-found (length items) [] items [] h sound (omega arith) tt
          (λ tid. empty (find_tx tid fs)) u
      where
        empty : (o : Option FilteredTransaction) → ◌≡◌ {A = ℕ} 0 (share (entry_at [] o))
        empty none = refl
        empty (some f) = refl
