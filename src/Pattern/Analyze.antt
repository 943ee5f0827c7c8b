-- ===== src/Pattern/Analyze.antt =====
-- server/business/doudizhu/domain/playing/pattern.go: `Analyze`.
use awesome_zero_platform.Base.{
  ℕ, ◌+◌, ◌-◌, ◌/◌, ◌%◌, ◌≡◌, refl, Bool, true, false, ◌&&◌, ◌||◌, List, [], ◌∷◌, Option, none,
  some, Result, ok, err, ◌>>=◌, ◌>>◌, reject, ltb, leb, ◌==◌, if◌then◌else◌, length, get_or,
}
use awesome_zero_platform.Carddeck.{rank_small_joker, rank_big_joker, rank}
use awesome_zero_platform.Pattern.{
  Kind, single, pair, triple, triple_with_single, triple_with_pair, straight, consecutive_pairs,
  airplane, airplane_with_singles, airplane_with_pairs, four_with_two_singles, four_with_two_pairs,
  bomb, rocket, Error, invalid_pattern, Pattern, make_pattern,
}
use awesome_zero_platform.Pattern.Counts.{
  rank_counts, ranks_with_cards, rank_with_count, count_ranks, exact_sequence, airplane_body,
}

-- `Analyze` returns the first pattern that fits.
infixr 40 ◌orelse◌
abbrev pub ◌orelse◌ {ℓ} : {A : Type ℓ} → Option A → Option A → Option A
none orelse later = later
some a orelse later = some a

unfoldable pub rocket_of : ℕ → List ℕ → Option Pattern
rocket_of n counts =
    if n == 2 && get_or counts rank_small_joker 0 == 1 && get_or counts rank_big_joker 0 == 1
    then some (make_pattern rocket rank_big_joker 1 n)
    else none

unfoldable pub one_rank_of : ℕ → List ℕ → Option Pattern
one_rank_of n (r ∷ []) =
    if n == 1
    then some (make_pattern single r 1 1)
    else if n == 2
    then some (make_pattern pair r 1 2)
    else if n == 3
    then some (make_pattern triple r 1 3)
    else if n == 4
    then some (make_pattern bomb r 1 4)
    else none
one_rank_of n _ = none

unfoldable pub triple_with_single_of : ℕ → List ℕ → Option Pattern
triple_with_single_of n counts =
    if n == 4
    then elim (rank_with_count 0 counts 3) [
      | none ↦ none
      | some r ↦ some (make_pattern triple_with_single r 1 4)
    ]
    else none

unfoldable pub triple_with_pair_of : ℕ → List ℕ → Option Pattern
triple_with_pair_of n counts =
    if n == 5
    then elim (rank_with_count 0 counts 3) [
      | none ↦ none
      | some r ↦
          if count_ranks counts 2 == 1 then some (make_pattern triple_with_pair r 1 5) else none
    ]
    else none

-- The three sequences differ in the cards for each rank, the least number of cards and of ranks.
unfoldable pub sequence_of : Kind → ℕ → ℕ → ℕ → ℕ → List ℕ → Option Pattern
sequence_of kind each least_cards least n counts =
    if leb least_cards n && n % each == 0
    then elim (exact_sequence counts each) [
      | none ↦ none
      | some (low, high) ↦
          if high - low + 1 == n / each && leb least (n / each)
          then some (make_pattern kind high (n / each) n)
          else none
    ]
    else none

unfoldable pub body_of : Kind → ℕ → ℕ → Bool → ℕ → List ℕ → Option Pattern
body_of kind each least_cards pair_wings n counts =
    if leb least_cards n && n % each == 0
    then elim (airplane_body counts (n / each) pair_wings) [
      | none ↦ none
      | some high ↦ some (make_pattern kind high (n / each) n)
    ]
    else none

unfoldable pub four_with_two_singles_of : ℕ → List ℕ → Option Pattern
four_with_two_singles_of n counts =
    if n == 6
    then elim (rank_with_count 0 counts 4) [
      | none ↦ none
      | some r ↦ some (make_pattern four_with_two_singles r 1 6)
    ]
    else none

unfoldable pub four_with_two_pairs_of : ℕ → List ℕ → Option Pattern
four_with_two_pairs_of n counts =
    if n == 8
    then elim (rank_with_count 0 counts 4) [
      | none ↦ none
      | some r ↦
          if count_ranks counts 2 == 2 then some (make_pattern four_with_two_pairs r 1 8) else none
    ]
    else none

-- The body of `Analyze` after the counts, for `n` cards.
unfoldable pub classify : ℕ → List ℕ → Option Pattern
unfolding rocket_of one_rank_of triple_with_single_of triple_with_pair_of sequence_of body_of
    four_with_two_singles_of four_with_two_pairs_of ranks_with_cards rank_with_count count_ranks
    exact_sequence airplane_body
classify n counts =
    rocket_of n counts
    orelse one_rank_of n (ranks_with_cards 0 counts)
    orelse triple_with_single_of n counts
    orelse triple_with_pair_of n counts
    orelse sequence_of straight 1 5 0 n counts
    orelse sequence_of consecutive_pairs 2 6 3 n counts
    orelse sequence_of airplane 3 6 2 n counts
    orelse body_of airplane_with_singles 4 8 false n counts
    orelse body_of airplane_with_pairs 5 10 true n counts
    orelse four_with_two_singles_of n counts
    orelse four_with_two_pairs_of n counts

abbrev pub or_invalid : Option Pattern → Result Error Pattern
or_invalid none = err invalid_pattern
or_invalid (some p) = ok p

-- `Analyze`.
unfoldable pub analyze : List ℕ → Result Error Pattern
analyze cards = do
  reject (length cards == 0 || ltb 20 (length cards)) invalid_pattern
  counts ← rank_counts cards
  or_invalid (classify (length cards) counts)

bomb_of_threes : analyze (0 ∷ 1 ∷ 2 ∷ 3 ∷ []) ≡ ok (make_pattern bomb 0 1 4)
unfolding analyze classify rank_counts rank
bomb_of_threes = refl

wings :
    analyze (0 ∷ 1 ∷ 2 ∷ 4 ∷ 5 ∷ 6 ∷ 8 ∷ 52 ∷ []) ≡ ok (make_pattern airplane_with_singles 1 2 8)
unfolding analyze classify rank_counts rank
wings = refl
