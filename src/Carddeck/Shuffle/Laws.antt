-- ===== src/Carddeck/Shuffle/Laws.antt =====
-- A shuffle only reorders the deck.
use awesome_zero_platform.Base.{
  ℕ, zero, suc, ◌+◌, ◌<◌, ◌≤◌, ◌≡◌, refl, sym, ◌∙◌, inl, inr, List, [], ◌∷◌, none, some, ok, arith,
  ◌==◌, if◌then◌else◌, length, get_or, set, length-set, get_or-set, Option-cases, Result-cases,
}
use awesome_zero_platform.Carddeck.{deck_size, validate_deck}
use awesome_zero_platform.Carddeck.Deck.{count, validate_deck_iff}
use awesome_zero_platform.Carddeck.Random.{uniform-pos, uniform_loop, uniform_loop-lt, large_words}
use awesome_zero_platform.Carddeck.Random.Ends.{uniform_loop_total}
use awesome_zero_platform.Carddeck.Shuffle.{swap, shuffle_from, shuffle_deck}

abbrev one_if : ℕ → ℕ → ℕ
one_if a b = if a == b then 1 else 0

pub count-set :
    (x : ℕ) (d : List ℕ) (i v : ℕ)
    → i < length d
    → count x (set d i v) + one_if (get_or d i 0) x ≡ count x d + one_if v x
count-set x [] i v h = elim h [ ]
count-set x (c ∷ d) zero v h = omega arith
count-set x (c ∷ d) (suc i) v h = omega (arith, count-set x d i v)

pub count-swap :
    (x : ℕ) (d : List ℕ) (i j : ℕ) → i < length d → j < length d → count x (swap d i j) ≡ count x d
unfolding swap
count-swap x d i j hi hj = ground (
  arith,
  count-set x d i (get_or d j 0) hi,
  count-set x (set d i (get_or d j 0)) j (get_or d i 0),
  length-set d i (get_or d j 0),
  get_or-set d i j (get_or d j 0) 0 hi,
)

pub length-swap : (d : List ℕ) (i j : ℕ) → length (swap d i j) ≡ length d
unfolding swap
length-swap d i j = length-set _ _ _ ∙ length-set _ _ _

module _ {S : Type 0} (draw : S → ℕ × S) (fuel : ℕ) where
  step_drawn :
      (i : ℕ) (d : List ℕ) (s : S) (k : ℕ) (u : S)
      → uniform_loop draw fuel (suc i + 1) s ≡ some (k, u)
      → shuffle_from draw fuel (suc i) d s ≡ shuffle_from draw fuel i (swap d (suc i) k) u
  unfolding shuffle_from
  step_drawn i d s k u e = rw (uniform-pos draw fuel (suc i + 1) s (omega arith), e)

  step_dry :
      (i : ℕ) (d : List ℕ) (s : S)
      → uniform_loop draw fuel (suc i + 1) s ≡ none
      → shuffle_from draw fuel (suc i) d s ≡ ok none
  unfolding shuffle_from
  step_dry i d s e = rw (uniform-pos draw fuel (suc i + 1) s (omega arith), e)

  shuffle_from-count :
      (i : ℕ) (d : List ℕ) (s : S) (out : List ℕ) (t : S)
      → i < length d
      → shuffle_from draw fuel i d s ≡ ok (some (out, t))
      → (length out ≡ length d) × ((x : ℕ) → count x out ≡ count x d)
  shuffle_from-count zero d s out t n h =
      (unfold shuffle_from in ground arith, λ x. unfold shuffle_from in ground arith)
  shuffle_from-count (suc i) d s out t n h =
      elim (Option-cases (uniform_loop draw fuel (suc i + 1) s)) [
        | inl e ↦ cc (rw (step_dry i d s e) at h)
        | inr ((k, u), e) ↦
            let below = uniform_loop-lt draw fuel (suc i + 1) s k u (omega arith) e in
            let size = length-swap d (suc i) k in
            let (same_size, same) =
              shuffle_from-count i (swap d (suc i) k) u out t (omega arith)
                (sym (step_drawn i d s k u e) ∙ h) in
            (same_size ∙ size, λ x. same x ∙ count-swap x d (suc i) k n (omega arith))
      ]

  -- For every source of words and every fuel: if the shuffle of 54 cards returns a deck, the cards
  -- it was given are a valid deck, and the result is a valid deck of 54 cards that holds every
  -- card as often as the input.
  pub shuffle_deck-permutes :
      (d : List ℕ) (s : S) (out : List ℕ) (t : S)
      → length d ≡ deck_size
      → shuffle_deck draw fuel d s ≡ ok (some (out, t))
      → (validate_deck d ≡ ok tt)
        × (validate_deck out ≡ ok tt)
        × (length out ≡ deck_size)
        × ((x : ℕ) → count x out ≡ count x d)
  unfolding shuffle_deck
  shuffle_deck-permutes d s out t n h = elim (Result-cases (validate_deck d)) [
    | inr (e, refused) ↦ cc (rw refused at h)
    | inl (tt, valid) ↦
        let (size, same) = shuffle_from-count 53 d s out t (omega arith) (rw valid at h) in
        (
          valid,
          (validate_deck_iff out).1 (λ x. omega (arith, same x, (validate_deck_iff d).0 valid x)),
          size ∙ n,
          same,
        )
  ]

  shuffle_from_total :
      (i n : ℕ) (d : List ℕ) (s : S)
      → i < deck_size
      → n ≤ fuel
      → i ≤ large_words draw n deck_size s
      → (out : List ℕ) × (t : S) × (shuffle_from draw fuel i d s ≡ ok (some (out, t)))
  shuffle_from_total zero n d s b f large = (d, s, unfold shuffle_from in refl)
  shuffle_from_total (suc i) n d s b f large =
      let (k, u, m, e, le, rest) =
        uniform_loop_total draw n fuel (suc i + 1) deck_size i s (omega arith) (omega arith) f
          (omega (arith, large)) in
      let (out, t, r) =
        shuffle_from_total i m (swap d (suc i) k) u (omega arith) (omega (arith, le, f)) rest in
      (out, t, step_drawn i d s k u e ∙ r)

  -- For every source of words: if at least 53 of the next words, as many as the fuel of a draw,
  -- are at least 54, the shuffle of a valid deck returns a deck.
  pub shuffle_deck_total :
      (d : List ℕ) (s : S)
      → validate_deck d ≡ ok tt
      → 53 ≤ large_words draw fuel deck_size s
      → (out : List ℕ) × (t : S) × (shuffle_deck draw fuel d s ≡ ok (some (out, t)))
  unfolding shuffle_deck
  shuffle_deck_total d s valid large =
      let (out, t, r) = shuffle_from_total 53 fuel d s (omega arith) (omega arith) large in
      (out, t, rw valid r)
