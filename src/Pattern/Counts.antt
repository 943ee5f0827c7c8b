-- ===== src/Pattern/Counts.antt =====
-- server/business/doudizhu/domain/playing/pattern.go: the cards of each rank, and the loops over these
-- counts.
use awesome_zero_platform.Base.{
  ℕ, zero, suc, ◌+◌, ◌-◌, Bool, true, false, not, ◌&&◌, ◌||◌, List, [], ◌∷◌, Option, none, some,
  Result, ok, err, ◌>>◌, reject, ltb, leb, ◌==◌, if◌then◌else◌, get_or, set, replicate,
}
use awesome_zero_platform.Carddeck.{deck_size, rank_ace, card_valid, rank}
use awesome_zero_platform.Pattern.{Error, invalid_pattern, carddeck_error}

-- The loop of `rankCounts`.
unfoldable pub rank_counts_from : List Bool → List ℕ → List ℕ → Result Error (List ℕ)
rank_counts_from seen counts [] = ok counts
rank_counts_from seen counts (card ∷ rest) =
    let later = λ (r : ℕ).
      rank_counts_from (set seen card true) (set counts r (get_or counts r 0 + 1)) rest in
    do
      reject (not (card_valid card)) invalid_pattern
      reject (get_or seen card false) invalid_pattern
      elim (rank card) [ ok r ↦ later r | err e ↦ err carddeck_error ]

unfoldable pub rank_counts : List ℕ → Result Error (List ℕ)
unfolding rank_counts_from
rank_counts cards = rank_counts_from (replicate deck_size false) (replicate 15 0) cards

-- `ranksWithCards`, from rank `r` on.
unfoldable pub ranks_with_cards : ℕ → List ℕ → List ℕ
ranks_with_cards r [] = []
ranks_with_cards r (count ∷ rest) =
    let later = ranks_with_cards (suc r) rest in if ltb 0 count then r ∷ later else later

-- `rankWithCount`, from rank `r` on.
unfoldable pub rank_with_count : ℕ → List ℕ → ℕ → Option ℕ
rank_with_count r [] wanted = none
rank_with_count r (count ∷ rest) wanted =
    let later = rank_with_count (suc r) rest wanted in if count == wanted then some r else later

unfoldable pub count_ranks : List ℕ → ℕ → ℕ
count_ranks [] wanted = 0
count_ranks (count ∷ rest) wanted = (if count == wanted then 1 else 0) + count_ranks rest wanted

-- `low`, or the given rank where `low` is -1.
abbrev pub low_or : Option (ℕ × ℕ) → ℕ → ℕ
low_or none r = r
low_or (some (low, high)) r = low

-- The first loop of `exactSequence`, from rank `r` on: `low` and `high` so far, `none` for -1. The
-- outer `none` is the early `return 0, 0, false`.
unfoldable pub scan_span : ℕ → ℕ → List ℕ → Option (ℕ × ℕ) → Option (Option (ℕ × ℕ))
scan_span wanted r [] span = some span
scan_span wanted r (count ∷ rest) span =
    let skip = scan_span wanted (suc r) rest span in
    let extend = scan_span wanted (suc r) rest (some (low_or span r, r)) in
    if count == 0 then skip else if ltb rank_ace r || not (count == wanted) then none else extend

-- The second loop of `exactSequence`, over the next `n` ranks.
unfoldable pub all_wanted : List ℕ → ℕ → ℕ → ℕ → Bool
all_wanted counts wanted r zero = true
all_wanted counts wanted r (suc n) =
    get_or counts r 0 == wanted && all_wanted counts wanted (suc r) n

unfoldable pub exact_sequence : List ℕ → ℕ → Option (ℕ × ℕ)
unfolding scan_span all_wanted
exact_sequence counts wanted = elim (scan_span wanted 0 counts none) [
  | none ↦ none
  | some none ↦ none
  | some (some (low, high)) ↦
      if all_wanted counts wanted low (high + 1 - low) then some (low, high) else none
]

-- The inner loop of `airplaneBody` over the next `n` ranks: each loses a triple and is then empty.
unfoldable pub remove_triples : List ℕ → ℕ → ℕ → Option (List ℕ)
remove_triples counts r zero = some counts
remove_triples counts r (suc n) =
    let rest = remove_triples (set counts r (get_or counts r 0 - 3)) (suc r) n in
    if ltb (get_or counts r 0) 3 || not (get_or counts r 0 - 3 == 0) then none else rest

unfoldable pub valid_pair_wings : List ℕ → ℕ → ℕ → Bool
valid_pair_wings [] pairs seen_pairs = seen_pairs == pairs
valid_pair_wings (count ∷ rest) pairs seen_pairs =
    let none_here = valid_pair_wings rest pairs seen_pairs in
    let pair_here = valid_pair_wings rest pairs (seen_pairs + 1) in
    if count == 0 then none_here else if count == 2 then pair_here else false

unfoldable pub remaining_cards : List ℕ → ℕ
remaining_cards [] = 0
remaining_cards (count ∷ rest) = count + remaining_cards rest

unfoldable pub wings_fit : List ℕ → ℕ → Bool → Bool
unfolding valid_pair_wings remaining_cards
wings_fit remaining n true = valid_pair_wings remaining n 0
wings_fit remaining n false = remaining_cards remaining == n

-- The outer loop of `airplaneBody`, over the `rounds` values of `low` that are left.
unfoldable pub body_from : ℕ → ℕ → List ℕ → ℕ → Bool → Option ℕ
unfolding remove_triples wings_fit
body_from zero low counts n pair_wings = none
body_from (suc rounds) low counts n pair_wings =
    let later = body_from rounds (suc low) counts n pair_wings in
    if leb (low + n - 1) rank_ace
    then elim (remove_triples counts low n) [
      | none ↦ later
      | some remaining ↦ if wings_fit remaining n pair_wings then some (low + n - 1) else later
    ]
    else none

unfoldable pub airplane_body : List ℕ → ℕ → Bool → Option ℕ
unfolding body_from
airplane_body counts n pair_wings =
    if ltb n 2 then none else body_from (rank_ace + 1) 0 counts n pair_wings
