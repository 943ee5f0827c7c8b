-- ===== src/Settlement/Played.antt =====
-- The cards that a history plays: how many there are, and how many bombs and rockets they allow.
use awesome_zero_platform.Base.{
  ℕ, zero, suc, ◌+◌, ◌*◌, ◌/◌, ◌≤◌, ◌<◌, ◌≡◌, inl, inr, refl, ap, ◌∙◌, Bool, true, false, List, [],
  ◌∷◌, ◌++◌, Option, none, some, ok, arith, ltb, leb, ◌&&◌, ◌==◌, if◌then◌else◌, length,
  length-append, get_or, set, replicate, get_or-set, length-set, Option-cases, Bool-cases,
}
use awesome_zero_platform.Carddeck.{deck_size, rank_three, rank_ace, rank_two}
use awesome_zero_platform.Carddeck.Deck.{count, copies}
use awesome_zero_platform.Pattern.{
  Pattern, Kind, kind_id, bomb, rocket, pattern_valid, valid_structure, valid_pattern_structure,
  straight, consecutive_pairs, airplane, airplane_with_singles, airplane_with_pairs,
}
use awesome_zero_platform.Pattern.Counts.{
  rank_counts, rank_counts_from, ranks_with_cards, rank_with_count, exact_sequence, airplane_body,
}
use awesome_zero_platform.Pattern.Counted.{rank_number, rank_counts_from-step}
use awesome_zero_platform.Pattern.Analyze.{
  ◌orelse◌, analyze, classify, rocket_of, one_rank_of, triple_with_single_of, triple_with_pair_of,
  sequence_of, body_of, four_with_two_singles_of, four_with_two_pairs_of,
}
use awesome_zero_platform.Pattern.Valid.{analyze-eq-ok, analyze-valid}
use awesome_zero_platform.Playing.{Action}
use awesome_zero_platform.Playing.Invariant.{ActionFits, HistoryFits}
use awesome_zero_platform.Settlement.Counts.{plays_of_kind, one_of_kind}

-- All cards that a history plays, in their order.
abbrev pub cards_of : List Action → List ℕ
cards_of [] = []
cards_of (a ∷ rest) = a.cards ++ cards_of rest

pub count-append : (x : ℕ) (xs ys : List ℕ) → count x (xs ++ ys) ≡ count x xs + count x ys
count-append x [] ys = omega arith
count-append x (c ∷ xs) ys = omega (arith, count-append x xs ys)

-- The sum of the values at the numbers below a bound.
sum_below : ℕ → (ℕ → ℕ) → ℕ
sum_below zero f = 0
sum_below (suc n) f = f n + sum_below n f

sum_below-le : (n : ℕ) (f : ℕ → ℕ) → ((x : ℕ) → f x ≤ 1) → sum_below n f ≤ n
unfolding sum_below
sum_below-le zero f h = omega arith
sum_below-le (suc n) f h = omega (arith, h n, sum_below-le n f h)

sum_below-empty : (n : ℕ) → sum_below n (λ x. count x []) ≡ 0
unfolding sum_below
sum_below-empty zero = refl
sum_below-empty (suc n) = omega (arith, sum_below-empty n)

sum_below-cons :
    (n c : ℕ) (cs : List ℕ)
    → sum_below n (λ x. count x (c ∷ cs))
      ≡ sum_below n (λ x. count x cs) + (if ltb c n then 1 else 0)
unfolding sum_below
sum_below-cons zero c cs = ground arith
sum_below-cons (suc n) c cs = ground (arith, sum_below-cons n c cs)

length-sum_below :
    (cs : List ℕ)
    → ((x : ℕ) → count x cs ≤ copies x)
    → sum_below deck_size (λ x. count x cs) ≡ length cs
length-sum_below [] h = sum_below-empty deck_size
length-sum_below (c ∷ cs) h =
    let valid : c < deck_size = ground (arith, h c) in
    ground
      (arith, valid, sum_below-cons deck_size c cs, length-sum_below cs (λ x. omega (arith, h x)))

-- No more cards than the deck has stand in a list that holds each at most once.
pub length-of_copies : (cs : List ℕ) → ((x : ℕ) → count x cs ≤ copies x) → length cs ≤ deck_size
length-of_copies cs h = omega (
  arith,
  length-sum_below cs h,
  sum_below-le deck_size (λ x. count x cs) (λ x. ground (arith, h x)),
)

sum_below-full :
    (n : ℕ) (f : ℕ → ℕ) (x : ℕ) → ((y : ℕ) → f y ≤ 1) → sum_below n f ≡ n → x < n → f x ≡ 1
unfolding sum_below
sum_below-full zero f x small full h = absurd (omega arith)
sum_below-full (suc n) f x small full h = elim (Bool-cases (x == n)) [
  | inl last ↦
      let same : x ≡ n = ground arith in ap f same ∙ omega (arith, small n, sum_below-le n f small)
  | inr before ↦
      sum_below-full n f x small (omega (arith, small n, sum_below-le n f small)) (ground arith)
]

-- A full deck that holds each card at most once holds each exactly once.
pub count-copies :
    (cs : List ℕ)
    → ((x : ℕ) → count x cs ≤ copies x)
    → length cs ≡ deck_size
    → (x : ℕ) → count x cs ≡ copies x
count-copies cs h full x = elim (Bool-cases (ltb x deck_size)) [
  | inl card ↦
      sum_below-full deck_size (λ y. count y cs) x (λ y. ground (arith, h y))
        (length-sum_below cs h ∙ full) (ground arith)
      ∙ rw card refl
  | inr other ↦ ground (arith, h x)
]

-- The small joker's rank counts the small jokers.
small_jokers_from :
    (seen : List Bool) (counts cards out : List ℕ)
    → rank_counts_from seen counts cards ≡ ok out
    → length counts ≡ 15
    → get_or out 13 0 ≤ get_or counts 13 0 + count 52 cards
unfolding rank_counts_from
small_jokers_from seen counts [] out h n = ground (arith, h)
small_jokers_from seen counts (c ∷ rest) out h n =
    let (valid, fresh, later) = rank_counts_from-step seen counts c rest out h in
    let v = get_or counts (rank_number c) 0 + 1 in
    ground (
      arith,
      valid,
      small_jokers_from (set seen c true) (set counts (rank_number c) v) rest out later
          (length-set counts (rank_number c) v ∙ n),
      get_or-set counts (rank_number c) 13 v 0,
    )

module _ (n : ℕ) (counts : List ℕ) (p : Pattern) (is_rocket : kind_id p.kind ≡ kind_id rocket) where
  either :
      (a b : Option Pattern)
      → (a ≡ some p → get_or counts 13 0 ≡ 1)
      → (b ≡ some p → get_or counts 13 0 ≡ 1)
      → (a orelse b) ≡ some p
      → get_or counts 13 0 ≡ 1
  either none b left right h = right h
  either (some q) b left right h = left h

  rocket_of-joker : rocket_of n counts ≡ some p → get_or counts 13 0 ≡ 1
  unfolding rocket_of
  rocket_of-joker h = ground arith

  one_rank_of-joker : (rs : List ℕ) → one_rank_of n rs ≡ some p → get_or counts 13 0 ≡ 1
  unfolding one_rank_of kind_id
  one_rank_of-joker [] h = cc
  one_rank_of-joker (q ∷ r ∷ rs) h = cc
  one_rank_of-joker (q ∷ []) h = ground arith

  triple_with_single_of-joker : triple_with_single_of n counts ≡ some p → get_or counts 13 0 ≡ 1
  unfolding triple_with_single_of kind_id
  triple_with_single_of-joker h = elim (Option-cases (rank_with_count 0 counts 3)) [
    | inl e ↦ ground arith
    | inr (q, e) ↦ ground arith
  ]

  triple_with_pair_of-joker : triple_with_pair_of n counts ≡ some p → get_or counts 13 0 ≡ 1
  unfolding triple_with_pair_of kind_id
  triple_with_pair_of-joker h = elim (Option-cases (rank_with_count 0 counts 3)) [
    | inl e ↦ ground arith
    | inr (q, e) ↦ ground arith
  ]

  four_with_two_singles_of-joker :
      four_with_two_singles_of n counts ≡ some p → get_or counts 13 0 ≡ 1
  unfolding four_with_two_singles_of kind_id
  four_with_two_singles_of-joker h = elim (Option-cases (rank_with_count 0 counts 4)) [
    | inl e ↦ ground arith
    | inr (q, e) ↦ ground arith
  ]

  four_with_two_pairs_of-joker : four_with_two_pairs_of n counts ≡ some p → get_or counts 13 0 ≡ 1
  unfolding four_with_two_pairs_of kind_id
  four_with_two_pairs_of-joker h = elim (Option-cases (rank_with_count 0 counts 4)) [
    | inl e ↦ ground arith
    | inr (q, e) ↦ ground arith
  ]

  sequence_of-joker :
      (kind : Kind) (each least_cards least : ℕ)
      → kind_id kind < 13
      → sequence_of kind each least_cards least n counts ≡ some p
      → get_or counts 13 0 ≡ 1
  unfolding sequence_of
  sequence_of-joker kind each least_cards least other h =
      let same : kind_id rocket ≡ 13 = unfold kind_id in refl in
      elim (Option-cases (exact_sequence counts each)) [
        | inl e ↦ ground arith
        | inr ((low, high), e) ↦ ground arith
      ]

  body_of-joker :
      (kind : Kind) (each least_cards : ℕ) (wings : Bool)
      → kind_id kind < 13
      → body_of kind each least_cards wings n counts ≡ some p
      → get_or counts 13 0 ≡ 1
  unfolding body_of
  body_of-joker kind each least_cards wings other h =
      let same : kind_id rocket ≡ 13 = unfold kind_id in refl in
      elim (Option-cases (airplane_body counts (n / each) wings)) [
        | inl e ↦ ground arith
        | inr (high, e) ↦ ground arith
      ]

  classify-joker : classify n counts ≡ some p → get_or counts 13 0 ≡ 1
  unfolding classify kind_id
  classify-joker = either (rocket_of n counts) _ rocket_of-joker (
      either (one_rank_of n (ranks_with_cards 0 counts)) _ (one_rank_of-joker _) (
        either (triple_with_single_of n counts) _ triple_with_single_of-joker (
          either (triple_with_pair_of n counts) _ triple_with_pair_of-joker (
            either (sequence_of straight 1 5 0 n counts) _
              (sequence_of-joker straight 1 5 0 (omega arith))
              (either (sequence_of consecutive_pairs 2 6 3 n counts) _
                (sequence_of-joker consecutive_pairs 2 6 3 (omega arith))
                (either (sequence_of airplane 3 6 2 n counts) _
                  (sequence_of-joker airplane 3 6 2 (omega arith))
                  (either (body_of airplane_with_singles 4 8 false n counts) _
                    (body_of-joker airplane_with_singles 4 8 false (omega arith))
                    (either (body_of airplane_with_pairs 5 10 true n counts) _
                      (body_of-joker airplane_with_pairs 5 10 true (omega arith))
                      (either (four_with_two_singles_of n counts) _ four_with_two_singles_of-joker
                        four_with_two_pairs_of-joker)))))))))

-- Cards that make a rocket hold the small joker.
analyze-rocket :
    (cards : List ℕ) (p : Pattern)
    → analyze cards ≡ ok p
    → kind_id p.kind ≡ kind_id rocket
    → 1 ≤ count 52 cards
analyze-rocket cards p h is_rocket =
    let (counts, counted, lo, hi, found) = analyze-eq-ok cards p h in
    let joker = classify-joker (length cards) counts p is_rocket found in
    unfold rank_counts in
    omega (
      arith,
      joker,
      small_jokers_from (replicate deck_size false) (replicate 15 0) cards counts counted refl,
    )

valid_structure-bomb :
    (kind : Kind) (ordinary in_sequence : Bool) (rank len n : ℕ)
    → kind_id kind ≡ kind_id bomb
    → valid_structure kind ordinary in_sequence rank len n ≡ true
    → n ≡ 4
unfolding valid_structure kind_id
valid_structure-bomb kind ordinary in_sequence rank len n e h = ground arith

-- Cards that make a bomb are four.
analyze-bomb :
    (cards : List ℕ) (p : Pattern)
    → analyze cards ≡ ok p
    → kind_id p.kind ≡ kind_id bomb
    → length cards ≡ 4
analyze-bomb cards p h is_bomb =
    let (valid, counted, lo, hi) = analyze-valid cards p h in
    let structure : valid_pattern_structure p ≡ true = unfold pattern_valid in ground arith in
    unfold valid_pattern_structure in
    omega (
      arith,
      counted,
      valid_structure-bomb p.kind (leb p.main_rank rank_two)
          (leb p.main_rank rank_ace && leb (p.sequence_length + rank_three) (p.main_rank + 1))
          p.main_rank p.sequence_length p.card_count is_bomb structure,
    )

ActionFits-kinds :
    (n : ℕ) (a : Action)
    → ActionFits n a
    → (4 * one_of_kind bomb a.type a.pattern ≤ length a.cards)
      × (one_of_kind rocket a.type a.pattern ≤ count 52 a.cards)
ActionFits-kinds n a (number, lo, hi, inl (passed, e, p)) = rw passed (omega arith, omega arith)
ActionFits-kinds n a (number, lo, hi, inr (p, played, pat, analyzed)) =
    rw (played, pat)
      (
        elim (Bool-cases (kind_id p.kind == kind_id bomb)) [
          | inl is_bomb ↦ rw is_bomb (omega (arith, analyze-bomb a.cards p analyzed (ground arith)))
          | inr differs ↦ rw differs (omega arith)
        ],
        elim (Bool-cases (kind_id p.kind == kind_id rocket)) [
          | inl is_bomb ↦
              rw is_bomb (omega (arith, analyze-rocket a.cards p analyzed (ground arith)))
          | inr differs ↦ rw differs (omega arith)
        ],
      )

-- The cards of a history bound its bombs and rockets.
pub cards_of-kinds :
    (n : ℕ) (history : List Action)
    → HistoryFits n history
    → (4 * plays_of_kind bomb history ≤ length (cards_of history))
      × (plays_of_kind rocket history ≤ count 52 (cards_of history))
cards_of-kinds n [] h = (omega arith, omega arith)
cards_of-kinds n (a ∷ rest) (fits, later) =
    let (bombs, rockets) = ActionFits-kinds (suc n) a fits in
    let (more_bombs, more_rockets) = cards_of-kinds (suc n) rest later in
    (
      omega (arith, length-append a.cards (cards_of rest)),
      omega (arith, count-append 52 a.cards (cards_of rest)),
    )
