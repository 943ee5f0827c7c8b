-- ===== src/Pattern/Valid.antt =====
-- Every pattern that `Analyze` returns passes `validatePattern`, and counts its cards.
use awesome_zero_platform.Base.{
  ℕ, ◌+◌, ◌/◌, ◌%◌, ◌≤◌, ◌<◌, ◌≡◌, refl, inl, inr, Bool, true, false, ◌||◌, List, [], ◌∷◌, Option,
  none, some, ok, err, arith, ltb, ◌==◌, length, get_or, Bool-cases, Result-cases, Option-cases,
}
use awesome_zero_platform.Base.Text.{text_eq_refl}
use awesome_zero_platform.Pattern.{
  Kind, straight, consecutive_pairs, airplane, airplane_with_singles, airplane_with_pairs, Pattern,
  Error, invalid_pattern, rules_version, make_pattern, pattern_valid,
}
use awesome_zero_platform.Pattern.Counts.{
  rank_counts, rank_with_count, ranks_with_cards, exact_sequence, airplane_body,
}
use awesome_zero_platform.Pattern.Counted.{
  Counted, rank_counts-Counted, rank_counts-error, rank_with_count_sound, one_rank_sound,
  exact_sequence_sound, airplane_body_sound,
}
use awesome_zero_platform.Pattern.Analyze.{
  ◌orelse◌, rocket_of, one_rank_of, triple_with_single_of, triple_with_pair_of, sequence_of,
  body_of, four_with_two_singles_of, four_with_two_pairs_of, classify, analyze, or_invalid,
}

-- What is claimed of a pattern found for `n` cards.
pub record Fits (n : ℕ) (p : Pattern) : Type 0 where
  pub valid : pattern_valid p ≡ true
  pub counted : p.card_count ≡ n

module _ (n : ℕ) (counts : List ℕ) (small : n ≤ 20) (c : Counted n counts) (p : Pattern) where
  rocket_of-Fits : rocket_of n counts ≡ some p → Fits n p
  unfolding rocket_of pattern_valid
  rocket_of-Fits h = ground (arith, text_eq_refl rules_version)

  -- A rank with two cards or more is no joker's.
  ordinary : (q k : ℕ) → q < 15 → get_or counts q 0 ≡ k → 2 ≤ k → q ≤ 12
  ordinary q k bound e many = ground (arith, c.small_jokers, c.big_jokers)

  one_rank_of-Fits :
      (rs : List ℕ) → ranks_with_cards 0 counts ≡ rs → one_rank_of n rs ≡ some p → Fits n p
  unfolding one_rank_of pattern_valid
  one_rank_of-Fits [] e h = cc
  one_rank_of-Fits (q ∷ r ∷ rs) e h = cc
  one_rank_of-Fits (q ∷ []) e h = ground (
    arith,
    text_eq_refl rules_version,
    c.ranks,
    c.total,
    one_rank_sound 0 counts q e,
    ordinary q n,
  )

  of_count : (q k : ℕ) → rank_with_count 0 counts k ≡ some q → 2 ≤ k → q ≤ 12
  of_count q k h many = ground (arith, c.ranks, rank_with_count_sound 0 counts k q h, ordinary q k)

  triple_with_single_of-Fits : triple_with_single_of n counts ≡ some p → Fits n p
  unfolding triple_with_single_of pattern_valid
  triple_with_single_of-Fits h = elim (Option-cases (rank_with_count 0 counts 3)) [
    | inl e ↦ ground arith
    | inr (q, e) ↦ ground (arith, text_eq_refl rules_version, of_count q 3 e)
  ]

  triple_with_pair_of-Fits : triple_with_pair_of n counts ≡ some p → Fits n p
  unfolding triple_with_pair_of pattern_valid
  triple_with_pair_of-Fits h = elim (Option-cases (rank_with_count 0 counts 3)) [
    | inl e ↦ ground arith
    | inr (q, e) ↦ ground (arith, text_eq_refl rules_version, of_count q 3 e)
  ]

  four_with_two_singles_of-Fits : four_with_two_singles_of n counts ≡ some p → Fits n p
  unfolding four_with_two_singles_of pattern_valid
  four_with_two_singles_of-Fits h = elim (Option-cases (rank_with_count 0 counts 4)) [
    | inl e ↦ ground arith
    | inr (q, e) ↦ ground (arith, text_eq_refl rules_version, of_count q 4 e)
  ]

  four_with_two_pairs_of-Fits : four_with_two_pairs_of n counts ≡ some p → Fits n p
  unfolding four_with_two_pairs_of pattern_valid
  four_with_two_pairs_of-Fits h = elim (Option-cases (rank_with_count 0 counts 4)) [
    | inl e ↦ ground arith
    | inr (q, e) ↦ ground (arith, text_eq_refl rules_version, of_count q 4 e)
  ]

  -- What a sequence or an airplane that was found looks like.
  SequenceAt : Kind → ℕ → ℕ → ℕ → ℕ → Type 0
  SequenceAt kind each least_cards least high =
      (p ≡ make_pattern kind high (n / each) n)
      × (n / each ≤ high + 1)
      × (high ≤ 11)
      × (least ≤ n / each)
      × (least_cards ≤ n)
      × (n % each ≡ 0)

  sequence_of_sound :
      (kind : Kind) (each least_cards least : ℕ)
      → sequence_of kind each least_cards least n counts ≡ some p
      → (high : ℕ) × SequenceAt kind each least_cards least high
  unfolding sequence_of SequenceAt
  sequence_of_sound kind each least_cards least h =
      elim (Option-cases (exact_sequence counts each)) [
        | inl e ↦ absurd (ground arith)
        | inr ((low, high), e) ↦ (high, ground (arith, exact_sequence_sound counts each low high e))
      ]

  body_of_sound :
      (kind : Kind) (each least_cards : ℕ) (wings : Bool)
      → body_of kind each least_cards wings n counts ≡ some p
      → (high : ℕ) × SequenceAt kind each least_cards 2 high
  unfolding body_of SequenceAt
  body_of_sound kind each least_cards wings h =
      elim (Option-cases (airplane_body counts (n / each) wings)) [
        | inl e ↦ absurd (ground arith)
        | inr (high, e) ↦ (high, ground (arith, airplane_body_sound counts (n / each) wings high e))
      ]

  straight-Fits : (high : ℕ) → SequenceAt straight 1 5 0 high → Fits n p
  unfolding SequenceAt pattern_valid
  straight-Fits high s = ground (arith, text_eq_refl rules_version)

  consecutive_pairs-Fits : (high : ℕ) → SequenceAt consecutive_pairs 2 6 3 high → Fits n p
  unfolding SequenceAt pattern_valid
  consecutive_pairs-Fits high s = ground (arith, text_eq_refl rules_version)

  airplane-Fits : (high : ℕ) → SequenceAt airplane 3 6 2 high → Fits n p
  unfolding SequenceAt pattern_valid
  airplane-Fits high s = ground (arith, text_eq_refl rules_version)

  airplane_with_singles-Fits : (high : ℕ) → SequenceAt airplane_with_singles 4 8 2 high → Fits n p
  unfolding SequenceAt pattern_valid
  airplane_with_singles-Fits high s = ground (arith, text_eq_refl rules_version)

  airplane_with_pairs-Fits : (high : ℕ) → SequenceAt airplane_with_pairs 5 10 2 high → Fits n p
  unfolding SequenceAt pattern_valid
  airplane_with_pairs-Fits high s = ground (arith, text_eq_refl rules_version)

  either :
      (a b : Option Pattern)
      → (a ≡ some p → Fits n p)
      → (b ≡ some p → Fits n p)
      → (a orelse b) ≡ some p
      → Fits n p
  either none b left right h = right h
  either (some q) b left right h = left h

  classify-Fits : classify n counts ≡ some p → Fits n p
  unfolding classify
  classify-Fits = either (rocket_of n counts) _ rocket_of-Fits (
      either (one_rank_of n (ranks_with_cards 0 counts)) _ (one_rank_of-Fits _ refl) (
        either (triple_with_single_of n counts) _ triple_with_single_of-Fits (
          either (triple_with_pair_of n counts) _ triple_with_pair_of-Fits (
            either (sequence_of straight 1 5 0 n counts) _
              (λ h. let (high, s) = sequence_of_sound straight 1 5 0 h in straight-Fits high s)
              (either (sequence_of consecutive_pairs 2 6 3 n counts) _
                (λ h.
                  let (high, s) = sequence_of_sound consecutive_pairs 2 6 3 h in
                  consecutive_pairs-Fits high s)
                (either (sequence_of airplane 3 6 2 n counts) _
                  (λ h. let (high, s) = sequence_of_sound airplane 3 6 2 h in airplane-Fits high s)
                  (either (body_of airplane_with_singles 4 8 false n counts) _
                    (λ h.
                      let (high, s) = body_of_sound airplane_with_singles 4 8 false h in
                      airplane_with_singles-Fits high s)
                    (either (body_of airplane_with_pairs 5 10 true n counts) _
                      (λ h.
                        let (high, s) = body_of_sound airplane_with_pairs 5 10 true h in
                        airplane_with_pairs-Fits high s)
                      (either (four_with_two_singles_of n counts) _ four_with_two_singles_of-Fits
                        four_with_two_pairs_of-Fits)))))))))

or_invalid-eq_ok : (o : Option Pattern) (p : Pattern) → or_invalid o ≡ ok p → o ≡ some p
or_invalid-eq_ok none p h = cc
or_invalid-eq_ok (some q) p h = cc

or_invalid-eq_err : (o : Option Pattern) (e : Error) → or_invalid o ≡ err e → e ≡ invalid_pattern
or_invalid-eq_err none e h = cc
or_invalid-eq_err (some q) e h = cc

-- How `Analyze` comes to a pattern.
pub analyze-eq-ok :
    (cards : List ℕ) (p : Pattern)
    → analyze cards ≡ ok p
    → (counts : List ℕ) × (rank_counts cards ≡ ok counts)
      × (1 ≤ length cards)
      × (length cards ≤ 20)
      × (classify (length cards) counts ≡ some p)
unfolding analyze
analyze-eq-ok cards p h = elim (Bool-cases (length cards == 0 || ltb 20 (length cards))) [
  | inl bad ↦ cc (rw bad at h)
  | inr sized ↦ elim (Result-cases (rank_counts cards)) [
    | inr (e, refused) ↦ cc (rw (sized, refused) at h)
    | inl (counts, counted) ↦ (
      counts,
      counted,
      ground arith,
      ground arith,
      or_invalid-eq_ok _ p (rw (sized, counted) at h),
    )
  ]
]

-- If the analysis of some cards returns a pattern, the pattern is valid, its card count is the
-- number of the cards, and that is between 1 and 20.
pub analyze-valid :
    (cards : List ℕ) (p : Pattern)
    → analyze cards ≡ ok p
    → (pattern_valid p ≡ true)
      × (p.card_count ≡ length cards)
      × (1 ≤ length cards)
      × (length cards ≤ 20)
analyze-valid cards p h =
    let (counts, counted, lo, hi, found) = analyze-eq-ok cards p h in
    let fits =
      classify-Fits (length cards) counts hi (rank_counts-Counted cards counts counted) p found in
    (fits.valid, fits.counted, lo, hi)

-- If the analysis of some cards fails, it fails with the error for an invalid pattern.
pub analyze-error : (cards : List ℕ) (e : Error) → analyze cards ≡ err e → e ≡ invalid_pattern
unfolding analyze
analyze-error cards e h = elim (Bool-cases (length cards == 0 || ltb 20 (length cards))) [
  | inl bad ↦ cc (rw bad at h)
  | inr sized ↦ elim (Result-cases (rank_counts cards)) [
    | inr (x, refused) ↦ cc (rank_counts-error cards x refused, rw (sized, refused) at h)
    | inl (counts, counted) ↦
        or_invalid-eq_err (classify (length cards) counts) e (rw (sized, counted) at h)
  ]
]
