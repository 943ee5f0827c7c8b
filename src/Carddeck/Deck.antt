-- ===== src/Carddeck/Deck.antt =====
-- What `Deck.Validate` accepts: decks in which no card stands twice and nothing else stands.
use awesome_zero_platform.Base.{
  ℕ, ◌+◌, ◌≤◌, ◌<◌, ◌≡◌, ◌↔◌, refl, ◌∙◌, Bool, true, false, List, [], ◌∷◌, ok, arith, ltb, ◌==◌,
  if◌then◌else◌, length, get_or, set, replicate, get_or-set, get_or-replicate, length-set,
}
use awesome_zero_platform.Carddeck.{deck_size, validate_from, validate_deck}

-- How often a card stands in a list.
abbrev pub count : ℕ → List ℕ → ℕ
count x [] = 0
count x (c ∷ cs) = (if c == x then 1 else 0) + count x cs

-- How often a deck may hold `x`: once if it is a card, never otherwise.
abbrev pub copies : ℕ → ℕ
copies x = if ltb x deck_size then 1 else 0

abbrev pub flag : Bool → ℕ
flag true = 1
flag false = 0

-- How often `x` was seen.
abbrev pub seen_copies : List Bool → ℕ → ℕ
seen_copies seen x = if ltb x deck_size then flag (get_or seen x false) else 0

pub seen_copies-set :
    (seen : List Bool) (c x : ℕ)
    → length seen ≡ deck_size
    → c < deck_size
    → get_or seen c false ≡ false
    → seen_copies (set seen c true) x ≡ seen_copies seen x + (if c == x then 1 else 0)
seen_copies-set seen c x n h f = ground (arith, get_or-set seen c x true false (omega arith))

-- The loop accepts the rest of a deck exactly if each card stands at most once in what was seen and
-- what is left together.
validate_from_sound :
    (seen : List Bool) (cs : List ℕ) (x : ℕ)
    → length seen ≡ deck_size
    → validate_from seen cs ≡ ok tt
    → count x cs + seen_copies seen x ≤ copies x
unfolding validate_from
validate_from_sound seen [] x n h = ground arith
validate_from_sound seen (c ∷ cs) x n h = ground (
  arith,
  seen_copies-set seen c x n,
  validate_from_sound (set seen c true) cs x (length-set seen c true ∙ n),
)

validate_from_complete :
    (seen : List Bool) (cs : List ℕ)
    → length seen ≡ deck_size
    → ((x : ℕ) → count x cs + seen_copies seen x ≤ copies x)
    → validate_from seen cs ≡ ok tt
unfolding validate_from
validate_from_complete seen [] n h = refl
validate_from_complete seen (c ∷ cs) n h =
    let valid : c < deck_size = ground (arith, h c) in
    let fresh : get_or seen c false ≡ false = ground (arith, h c) in
    ground (
      arith,
      validate_from_complete (set seen c true) cs (length-set seen c true ∙ n)
          λ x. omega (arith, h x, seen_copies-set seen c x n valid fresh),
    )

pub no_copies_seen : (x : ℕ) → seen_copies (replicate deck_size false) x ≡ 0
no_copies_seen x = ground (arith, get_or-replicate deck_size x false)

-- The validation of a list of cards succeeds if and only if the list holds every card of the deck
-- at most once and nothing that is not a card.
pub validate_deck_iff : (d : List ℕ) → (validate_deck d ≡ ok tt) ↔ ((x : ℕ) → count x d ≤ copies x)
unfolding validate_deck
validate_deck_iff d = (
  λ h x. omega (arith, validate_from_sound (replicate deck_size false) d x refl h),
  λ h.
      validate_from_complete (replicate deck_size false) d refl
        (λ x. omega (arith, no_copies_seen x, h x)),
)
