-- ===== src/Pattern/Counted.antt =====
-- What the counts of the ranks say about the cards.
use awesome_zero_platform.Base.{
  ℕ, zero, suc, ◌+◌, ◌-◌, ◌/◌, ◌≤◌, ◌<◌, ◌≡◌, refl, subst, ◌∙◌, inl, inr, Bool, true, false, List,
  [], ◌∷◌, Option, none, some, ok, err, arith, ltb, ◌==◌, if◌then◌else◌, length, get_or, set,
  replicate, length-set, get_or-set, Bool-cases, ok-injective,
}
use awesome_zero_platform.Carddeck.{deck_size, card_valid, rank}
use awesome_zero_platform.Pattern.{Error, invalid_pattern}
use awesome_zero_platform.Pattern.Counts.{
  rank_counts_from, rank_counts, remaining_cards, rank_with_count, ranks_with_cards, scan_span,
  exact_sequence, body_from, airplane_body,
}

-- The rank of a card: the jokers have the two highest.
abbrev pub rank_number : ℕ → ℕ
rank_number c = if c == 52 then 13 else if c == 53 then 14 else c / 4

pub rank-valid : (c : ℕ) → card_valid c ≡ true → rank c ≡ ok (rank_number c)
unfolding rank
rank-valid c v = ground arith

abbrev flag : Bool → ℕ
flag true = 1
flag false = 0

-- At most one card of each joker's rank, and as many cards as the counts add up to.
pub record Counted (n : ℕ) (counts : List ℕ) : Type 0 where
  pub ranks : length counts ≡ 15
  pub small_jokers : get_or counts 13 0 ≤ 1
  pub big_jokers : get_or counts 14 0 ≤ 1
  pub total : remaining_cards counts ≡ n

remaining_cards-set :
    (counts : List ℕ) (i v : ℕ)
    → i < length counts
    → remaining_cards (set counts i v) + get_or counts i 0 ≡ remaining_cards counts + v
unfolding remaining_cards
remaining_cards-set [] i v h = elim h [ ]
remaining_cards-set (c ∷ counts) zero v h = omega arith
remaining_cards-set (c ∷ counts) (suc i) v h = omega (arith, remaining_cards-set counts i v)

pub rank_counts_from-step :
    (seen : List Bool) (counts : List ℕ) (c : ℕ) (rest out : List ℕ)
    → rank_counts_from seen counts (c ∷ rest) ≡ ok out
    → (c < deck_size)
      × (get_or seen c false ≡ false)
      × (rank_counts_from
            (set seen c true)
            (set counts (rank_number c) (get_or counts (rank_number c) 0 + 1))
            rest
          ≡ ok out)
unfolding rank_counts_from
rank_counts_from-step seen counts c rest out h = elim (Bool-cases (card_valid c)) [
  | inr bad ↦ cc (rw bad at h)
  | inl valid ↦ ground (arith, rank-valid c valid)
]

rank_counts_from-Counted :
    (seen : List Bool) (counts cards : List ℕ) (out : List ℕ)
    → rank_counts_from seen counts cards ≡ ok out
    → length seen ≡ deck_size
    → length counts ≡ 15
    → get_or counts 13 0 ≤ flag (get_or seen 52 false)
    → get_or counts 14 0 ≤ flag (get_or seen 53 false)
    → Counted (remaining_cards counts + length cards) out
rank_counts_from-Counted seen counts [] out h ls lc s b =
    let e : counts ≡ out = unfold rank_counts_from in ok-injective h in rw (← e) (ground arith)
rank_counts_from-Counted seen counts (c ∷ rest) out h ls lc s b =
    let (valid, fresh, later) = rank_counts_from-step seen counts c rest out h in
    let r = rank_number c in
    let v = get_or counts r 0 + 1 in
    let small : r < length counts = ground arith in
    let ih =
      rank_counts_from-Counted (set seen c true) (set counts r v) rest out later
        (length-set seen c true ∙ ls) (length-set counts r v ∙ lc)
        (rw (get_or-set counts r 13 v 0 small, get_or-set seen c 52 true false (omega arith))
          (ground arith))
        (rw (get_or-set counts r 14 v 0 small, get_or-set seen c 53 true false (omega arith))
          (ground arith)) in
    subst (λ n. Counted n out) (omega (arith, remaining_cards-set counts r v small)) ih

-- Counted cards satisfy the facts above.
pub rank_counts-Counted :
    (cards counts : List ℕ) → rank_counts cards ≡ ok counts → Counted (length cards) counts
unfolding rank_counts remaining_cards
rank_counts-Counted cards counts h =
    subst (λ n. Counted n counts) (omega arith)
      (rank_counts_from-Counted (replicate deck_size false) (replicate 15 0) cards counts h refl
        refl (omega arith) (omega arith))

-- The rank that `rankWithCount` returns has the wanted count.
pub rank_with_count_sound :
    (r : ℕ) (counts : List ℕ) (wanted q : ℕ)
    → rank_with_count r counts wanted ≡ some q
    → (r ≤ q) × (q < r + length counts) × (get_or counts (q - r) 0 ≡ wanted)
unfolding rank_with_count
rank_with_count_sound r [] wanted q h = cc
rank_with_count_sound r (c ∷ counts) wanted q h = elim (Bool-cases (c == wanted)) [
  | inl hit ↦
      let e : r ≡ q = cc (rw hit at h) in
      let z : q - r ≡ 0 = omega arith in (omega arith, omega arith, rw z (ground arith))
  | inr miss ↦
      let (lo, hi, eq) = rank_with_count_sound (suc r) counts wanted q (rw miss at h) in
      let z : q - r ≡ suc (q - suc r) = omega arith in (omega arith, omega arith, rw z eq)
]

no_ranks : (r : ℕ) (counts : List ℕ) → ranks_with_cards r counts ≡ [] → remaining_cards counts ≡ 0
unfolding ranks_with_cards remaining_cards
no_ranks r [] h = refl
no_ranks r (c ∷ counts) h = ground (arith, no_ranks (suc r) counts)

-- If the cards have one rank, it has all of them.
pub one_rank_sound :
    (r : ℕ) (counts : List ℕ) (q : ℕ)
    → ranks_with_cards r counts ≡ q ∷ []
    → (r ≤ q) × (q < r + length counts) × (get_or counts (q - r) 0 ≡ remaining_cards counts)
unfolding ranks_with_cards remaining_cards
one_rank_sound r [] q h = cc
one_rank_sound r (c ∷ counts) q h = elim (Bool-cases (ltb 0 c)) [
  | inl some_here ↦
      let e : (r ≡ q) × (ranks_with_cards (suc r) counts ≡ []) = ground arith in
      let z : q - r ≡ 0 = omega (arith, e.0) in
      (omega (arith, e.0), omega (arith, e.0), rw z (omega (arith, no_ranks (suc r) counts e.1)))
  | inr none_here ↦
      let (lo, hi, eq) = one_rank_sound (suc r) counts q (rw none_here at h) in
      let z : q - r ≡ suc (q - suc r) = omega arith in
      (omega arith, omega arith, rw z (ground arith))
]

-- A span that the first loop of `exactSequence` may hold before rank `r`.
abbrev SpanFits : ℕ → Option (ℕ × ℕ) → Type 0
SpanFits r none = Unit {0}
SpanFits r (some (low, high)) = (low ≤ high) × (high < r) × (high ≤ 11)

scan_span_sound :
    (wanted r : ℕ) (counts : List ℕ) (span : Option (ℕ × ℕ)) (low high : ℕ)
    → SpanFits r span
    → scan_span wanted r counts span ≡ some (some (low, high))
    → (low ≤ high) × (high ≤ 11)
unfolding scan_span
scan_span_sound wanted r [] none low high f h = cc
scan_span_sound wanted r [] (some (l, k)) low high f h = ground arith
scan_span_sound wanted r (c ∷ counts) none low high f h = ground (
  arith,
  scan_span_sound wanted (suc r) counts none low high,
  scan_span_sound wanted (suc r) counts (some (r, r)) low high,
)
scan_span_sound wanted r (c ∷ counts) (some (l, k)) low high f h = ground (
  arith,
  scan_span_sound wanted (suc r) counts (some (l, k)) low high,
  scan_span_sound wanted (suc r) counts (some (l, r)) low high,
)

-- A sequence ends at the ace at the highest.
pub exact_sequence_sound :
    (counts : List ℕ) (wanted low high : ℕ)
    → exact_sequence counts wanted ≡ some (low, high)
    → (low ≤ high) × (high ≤ 11)
unfolding exact_sequence
exact_sequence_sound counts wanted low high h =
    ground (arith, scan_span_sound wanted 0 counts none low high tt)

body_from_sound :
    (rounds low : ℕ) (counts : List ℕ) (n : ℕ) (wings : Bool) (high : ℕ)
    → body_from rounds low counts n wings ≡ some high
    → (high ≤ 11) × (n ≤ high + 1)
unfolding body_from
body_from_sound zero low counts n wings high h = cc
body_from_sound (suc rounds) low counts n wings high h =
    ground (arith, body_from_sound rounds (suc low) counts n wings high)

pub airplane_body_sound :
    (counts : List ℕ) (n : ℕ) (wings : Bool) (high : ℕ)
    → airplane_body counts n wings ≡ some high
    → (2 ≤ n) × (high ≤ 11) × (n ≤ high + 1)
unfolding airplane_body
airplane_body_sound counts n wings high h = ground (arith, body_from_sound 12 0 counts n wings high)

-- The counts are refused only for a card that is not in the deck or stands twice.
pub rank_counts_from-error :
    (seen : List Bool) (counts cards : List ℕ) (e : Error)
    → rank_counts_from seen counts cards ≡ err e
    → e ≡ invalid_pattern
unfolding rank_counts_from
rank_counts_from-error seen counts [] e h = cc
rank_counts_from-error seen counts (c ∷ rest) e h = elim (Bool-cases (card_valid c)) [
  | inr bad ↦ cc (rw bad at h)
  | inl valid ↦ ground (
    arith,
    rank-valid c valid,
    rank_counts_from-error (set seen c true)
        (set counts (rank_number c) (get_or counts (rank_number c) 0 + 1)) rest e,
  )
]

pub rank_counts-error :
    (cards : List ℕ) (e : Error) → rank_counts cards ≡ err e → e ≡ invalid_pattern
unfolding rank_counts
rank_counts-error cards e h = rank_counts_from-error _ _ cards e h
