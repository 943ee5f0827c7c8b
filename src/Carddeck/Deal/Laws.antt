-- ===== src/Carddeck/Deal/Laws.antt =====
-- Dealing loses no card: the deck is rebuilt from the hands.
use native.Mathlib.Nat.{add-zero}
use awesome_zero_platform.Base.{
  ℕ, zero, suc, ◌+◌, ◌-◌, ◌*◌, ◌/◌, ◌%◌, ◌≤◌, ◌<◌, ◌≡◌, refl, sym, ap, ◌∙◌, inl, inr, List, [], ◌∷◌,
  ok, arith, ltb, if◌then◌else◌, length, get_or, Bool-cases,
}
use awesome_zero_platform.Base.Trio.{Trio, at_seat}
use awesome_zero_platform.Base.Text.{Text, text_eq_refl}
use awesome_zero_platform.Carddeck.{deck_size, validate_deck}
use awesome_zero_platform.Carddeck.Deal.{
  DealResult, tabulate, hand_of, reconstruct_deck, compute_digest, deal, validate_deal, zero_digest,
  deal_bytes,
}

get_or-tabulate : (i n k : ℕ) (f : ℕ → ℕ) → k < n → get_or (tabulate i n f) k 0 ≡ f (i + k)
unfolding tabulate
get_or-tabulate i zero k f h = elim h [ ]
get_or-tabulate i (suc n) zero f h = ap f (omega arith)
get_or-tabulate i (suc n) (suc k) f h =
    get_or-tabulate (suc i) n k f (omega arith) ∙ ap f (omega arith)

tabulate-ext :
    (i n : ℕ) (f g : ℕ → ℕ)
    → ((k : ℕ) → i ≤ k → k < i + n → f k ≡ g k)
    → tabulate i n f ≡ tabulate i n g
unfolding tabulate
tabulate-ext i zero f g h = refl
tabulate-ext i (suc n) f g h = cc (
  h i (omega arith) (omega arith),
  tabulate-ext (suc i) n f g (λ k lo hi. h k (omega arith) (omega arith)),
)

pub tabulate-get_or :
    (xs : List ℕ) (i : ℕ) (f : ℕ → ℕ)
    → ((k : ℕ) → k < length xs → f (i + k) ≡ get_or xs k 0)
    → tabulate i (length xs) f ≡ xs
unfolding tabulate
tabulate-get_or [] i f h = refl
tabulate-get_or (x ∷ xs) i f h = cc (
  ap f (add-zero i),
  h 0 (omega arith),
  tabulate-get_or xs (suc i) f (λ k lt. ap f (omega arith) ∙ h (suc k) (omega arith)),
)

abbrev pub dealt_hands : List ℕ → Trio (List ℕ)
dealt_hands d = record { first = hand_of d 0; second = hand_of d 1; third = hand_of d 2 }

at_seat-dealt : (d : List ℕ) (s : ℕ) → s < 3 → at_seat (dealt_hands d) (s + 1) ≡ hand_of d s
at_seat-dealt d zero h = refl
at_seat-dealt d (suc zero) h = refl
at_seat-dealt d (suc (suc zero)) h = refl
at_seat-dealt d (suc (suc (suc s))) h = absurd (omega arith)

seat_entry :
    (d : List ℕ) (i : ℕ)
    → i < 51
    → get_or (at_seat (dealt_hands d) (i % 3 + 1)) (i / 3) 0 ≡ get_or d i 0
seat_entry d i h =
    ap (λ hand. get_or hand (i / 3) 0) (at_seat-dealt d (i % 3) (omega arith))
    ∙ get_or-tabulate 0 17 (i / 3) (λ round. get_or d (round * 3 + i % 3) 0) (omega arith)
    ∙ ap (λ k. get_or d k 0) (omega arith)

module _ (d : List ℕ) (digest : Text) where
  abbrev dealt : DealResult
  dealt = record {
    hands = dealt_hands d;
    landlord_cards = tabulate 51 3 (λ i. get_or d i 0);
    digest = digest;
  }

  reconstruct-dealt : length d ≡ deck_size → reconstruct_deck dealt ≡ d
  unfolding reconstruct_deck
  reconstruct-dealt n =
      tabulate-ext 0 54 _ (λ i. get_or d i 0) entry
      ∙ sym (ap (λ k. tabulate 0 k (λ i. get_or d i 0)) n)
      ∙ tabulate-get_or d 0 (λ i. get_or d i 0) (λ k lt. ap (λ j. get_or d j 0) (omega arith))
    where
      entry :
          (i : ℕ)
          → 0 ≤ i
          → i < 0 + 54
          → (if ltb i 51
              then get_or (at_seat (dealt_hands d) (i % 3 + 1)) (i / 3) 0
              else get_or (tabulate 51 3 (λ i. get_or d i 0)) (i - 51) 0)
            ≡ get_or d i 0
      entry i lo hi = elim (Bool-cases (ltb i 51)) [
        | inl early ↦ rw early (seat_entry d i (ground arith))
        | inr late ↦ rw late (
            get_or-tabulate 51 3 (i - 51) (λ i. get_or d i 0) (ground arith)
            ∙ ap (λ k. get_or d k 0) (ground arith))
      ]

module _ (sha256 : Text → Text) (d : List ℕ) where
  compute_digest-dealt :
      (digest : Text)
      → length d ≡ deck_size
      → validate_deck d ≡ ok tt
      → compute_digest sha256 (dealt d digest) ≡ ok (sha256 (deal_bytes (dealt d zero_digest)))
  unfolding compute_digest deal_bytes
  compute_digest-dealt digest n valid = rw (reconstruct-dealt d digest n, valid)

  -- A valid deck of 54 cards is dealt, whatever the hash function is: the deal passes its own
  -- validation, and the deck is rebuilt from its hands and landlord cards.
  pub deal_lossless :
      length d ≡ deck_size
      → validate_deck d ≡ ok tt
      → (r : DealResult) × (deal sha256 d ≡ ok r)
        × (validate_deal sha256 r ≡ ok tt)
        × (reconstruct_deck r ≡ d)
  deal_lossless n valid = (
    dealt d (sha256 (deal_bytes (dealt d zero_digest))),
    (unfold deal in rw (valid, compute_digest-dealt zero_digest n valid)),
    (unfold validate_deal in
        rw
          (
            reconstruct-dealt d (sha256 (deal_bytes (dealt d zero_digest))) n,
            valid,
            compute_digest-dealt (sha256 (deal_bytes (dealt d zero_digest))) n valid,
            text_eq_refl (sha256 (deal_bytes (dealt d zero_digest))),
          )
          (ground arith)),
    reconstruct-dealt d _ n,
  )
