-- ===== src/Carddeck/Deal/Counts.antt =====
-- server/business/doudizhu/domain/carddeck/deal.go: every card of the deck is dealt as often as the
-- deck holds it.
use awesome_zero_platform.Base.{
  ℕ, ◌+◌, ◌≡◌, sym, ap, ◌∙◌, List, ok, arith, length, get_or, bind_steps, ok-injective,
}
use awesome_zero_platform.Base.Text.{Text}
use awesome_zero_platform.Carddeck.{deck_size, validate_deck}
use awesome_zero_platform.Carddeck.Deal.{DealResult, tabulate, hand_of, deal, compute_digest}
use awesome_zero_platform.Carddeck.Deal.Laws.{tabulate-get_or, dealt_hands}
use awesome_zero_platform.Carddeck.Deck.{count}

deal-hands :
    (sha256 : Text → Text) (d : List ℕ) (r : DealResult)
    → deal sha256 d ≡ ok r
    → (r.hands ≡ dealt_hands d) × (r.landlord_cards ≡ tabulate 51 3 (λ i. get_or d i 0))
unfolding deal
deal-hands sha256 d r h =
    let (_, valid, h1) = bind_steps (validate_deck d) _ r h in
    let (digest, computed, h2) = bind_steps (compute_digest sha256 _) _ r h1 in
    (
      ap (λ (x : DealResult). x.hands) (sym (ok-injective h2)),
      ap (λ (x : DealResult). x.landlord_cards) (sym (ok-injective h2)),
    )

count-dealt :
    (d : List ℕ) (x : ℕ)
    → count x (hand_of d 0)
        + count x (hand_of d 1)
        + count x (hand_of d 2)
        + count x (tabulate 51 3 (λ i. get_or d i 0))
      ≡ count x (tabulate 0 54 (λ i. get_or d i 0))
unfolding tabulate
count-dealt d x = omega arith

-- The three hands and the landlord's cards hold every card as often as the deck.
pub deal-count :
    (sha256 : Text → Text) (d : List ℕ) (r : DealResult) (x : ℕ)
    → length d ≡ deck_size
    → deal sha256 d ≡ ok r
    → count x r.hands.first
        + count x r.hands.second
        + count x r.hands.third
        + count x r.landlord_cards
      ≡ count x d
deal-count sha256 d r x full h =
    let (hands, landlord) = deal-hands sha256 d r h in
    rw (hands, landlord)
      (count-dealt d x
        ∙ ap (count x) (
            sym (ap (λ n. tabulate 0 n (λ i. get_or d i 0)) full)
            ∙ tabulate-get_or d 0 (λ i. get_or d i 0)
                (λ k lt. ap (λ j. get_or d j 0) (omega arith))))
