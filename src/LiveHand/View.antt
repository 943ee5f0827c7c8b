-- ===== src/LiveHand/View.antt =====
-- server/business/doudizhu/domain/livehand/game.go: what a live hand shows, to everyone and to the
-- player of one seat.
use awesome_zero_platform.Base.{
  ℕ, ◌≡◌, ◌≢◌, refl, sym, ◌∙◌, ap, inl, inr, arith, Bool-cases, bind_cong, Bool, true, false, not,
  ◌||◌, List, [], Option, none, some, Result, ok, err, ◌>>=◌, ◌>>◌, reject, ltb, ◌==◌,
  if◌then◌else◌, length,
}
use awesome_zero_platform.Base.Text.{Text, text_eq}
use awesome_zero_platform.Base.Trio.{Trio, at_seat}
use awesome_zero_platform.Bidding
use awesome_zero_platform.Carddeck.{landlord_card_count}
use awesome_zero_platform.Hand.{HandSeat}
use awesome_zero_platform.Playing
use awesome_zero_platform.Settlement
use awesome_zero_platform.LiveHand.{
  Phase, Error, instance_not_found, invalid_argument, viewer_not_seated, of_cards, Game, lifted,
}
use awesome_zero_platform.LiveHand.Cards.{card_codes}

pub record SeatView : Type 0 where
  pub position : ℕ
  pub account_id : Text
  pub remaining_cards : ℕ

pub record PublicView : Type 0 where
  pub hand_id : Text
  pub phase : Phase
  pub state_version : ℕ
  pub seats : Trio SeatView
  pub setup_digest : Text
  pub deck_digest : Text
  pub deal_digest : Text
  pub landlord_count : ℕ
  pub bidding : Bidding.Snapshot
  pub landlord_seat : ℕ
  pub winning_score : ℕ
  pub playing_seat : ℕ
  pub landlord_cards : List Text
  pub playing : Option Playing.Snapshot
  pub winner_seat : ℕ
  pub settlement : Option Settlement.Points

pub record PrivateView : Type 0 where
  pub public : PublicView
  pub position : ℕ
  pub cards : List Text

pub record ViewRequest : Type 0 where
  pub viewer_position : ℕ
  pub public_only : Bool

pub data View : Type 0 where
  public_view_of : PublicView → View
  private_view_of : PrivateView → View

abbrev seat_view : HandSeat → List ℕ → SeatView
seat_view seat cards = record {
  position = seat.seat;
  account_id = seat.account_id;
  remaining_cards = length cards;
}

abbrev play_snapshot : Option Playing.State → Option Playing.Snapshot
play_snapshot none = none
play_snapshot (some s) = some (Playing.snapshot s)

abbrev shown_landlord_cards : Game → Result Error (List Text)
shown_landlord_cards g =
    if not (g.landlord_seat == 0)
    then lifted of_cards (card_codes g.setup.landlord_cards)
    else ok []

-- The value that `publicView` returns.
abbrev public_with : Game → List Text → PublicView
public_with g landlord_cards = record {
  hand_id = g.id;
  phase = g.phase;
  state_version = g.version;
  seats = record {
    first = seat_view g.seats.first g.current.first;
    second = seat_view g.seats.second g.current.second;
    third = seat_view g.seats.third g.current.third;
  };
  setup_digest = g.artifact.digest;
  deck_digest = g.setup.deck_digest;
  deal_digest = g.setup.deal_digest;
  landlord_count = landlord_card_count;
  bidding = Bidding.snapshot g.auction;
  landlord_seat = g.landlord_seat;
  winning_score = g.winning_score;
  playing_seat = g.playing_seat;
  landlord_cards = landlord_cards;
  playing = play_snapshot g.play;
  winner_seat = g.winner_seat;
  settlement = g.settlement;
}

-- `publicView`.
unfoldable pub public_view : Game → Result Error PublicView
public_view g = do landlord_cards ← shown_landlord_cards g; ok (public_with g landlord_cards)

-- The part of `View` for one seat.
unfoldable pub private_view : Game → ℕ → PublicView → Result Error View
private_view g position public = do
  reject (ltb position 1 || ltb 3 position) invalid_argument
  cards ← lifted of_cards (card_codes (at_seat g.current position))
  ok (private_view_of (record { public = public; position = position; cards = cards }))

-- The view that `View` encodes; the version beside it is `g.version`.
unfoldable pub view : Game → ViewRequest → Result Error (ℕ × View)
unfolding public_view private_view
view g request = do
  reject g.terminal instance_not_found
  public ← public_view g
  shown ←
      if request.public_only
      then ok (public_view_of public)
      else private_view g request.viewer_position public
  ok (g.version, shown)

-- `PositionForAccount`.
unfoldable pub position_for_account : Game → Text → Result Error ℕ
position_for_account g account =
    if text_eq g.seats.first.account_id account
    then ok g.seats.first.seat
    else if text_eq g.seats.second.account_id account
    then ok g.seats.second.seat
    else if text_eq g.seats.third.account_id account
    then ok g.seats.third.seat
    else err viewer_not_seated

-- Two games that differ at most in what everyone or only the other players must not know: the
-- cards in hands of one size, the seed, the deck and the hands as dealt, the fairness material and
-- transcript, and the landlord's cards while nobody is the landlord.
pub record Alike (g h : Game) : Type 0 where
  pub id : g.id ≡ h.id
  pub seats : g.seats ≡ h.seats
  pub phase : g.phase ≡ h.phase
  pub version : g.version ≡ h.version
  pub terminal : g.terminal ≡ h.terminal
  pub setup_digest : g.artifact.digest ≡ h.artifact.digest
  pub deck_digest : g.setup.deck_digest ≡ h.setup.deck_digest
  pub deal_digest : g.setup.deal_digest ≡ h.setup.deal_digest
  pub auction : g.auction ≡ h.auction
  pub play : g.play ≡ h.play
  pub first : length g.current.first ≡ length h.current.first
  pub second : length g.current.second ≡ length h.current.second
  pub third : length g.current.third ≡ length h.current.third
  pub landlord_seat : g.landlord_seat ≡ h.landlord_seat
  pub landlord_cards : g.landlord_seat ≢ 0 → g.setup.landlord_cards ≡ h.setup.landlord_cards
  pub winning_score : g.winning_score ≡ h.winning_score
  pub playing_seat : g.playing_seat ≡ h.playing_seat
  pub winner_seat : g.winner_seat ≡ h.winner_seat
  pub settlement : g.settlement ≡ h.settlement

shown_landlord_cards-Alike :
    (g h : Game) → Alike g h → shown_landlord_cards g ≡ shown_landlord_cards h
shown_landlord_cards-Alike g h a = elim (Bool-cases (g.landlord_seat == 0)) [
  | inl nobody ↦
      let other : (h.landlord_seat == 0) ≡ true = ap (λ s. s == 0) (sym a.landlord_seat) ∙ nobody in
      rw (nobody, other) refl
  | inr somebody ↦
      let other : (h.landlord_seat == 0) ≡ false =
        ap (λ s. s == 0) (sym a.landlord_seat) ∙ somebody in
      rw (somebody, other)
        (ap (λ cards. lifted of_cards (card_codes cards)) (a.landlord_cards (ground arith)))
]

public_with-Alike :
    (g h : Game) (cards : List Text) → Alike g h → public_with g cards ≡ public_with h cards
public_with-Alike g h cards a = cc

public_view-Alike : (g h : Game) → Alike g h → public_view g ≡ public_view h
unfolding public_view
public_view-Alike g h a =
    bind_cong (shown_landlord_cards g) (shown_landlord_cards h) _ _
      (shown_landlord_cards-Alike g h a) (λ cards. ap ok (public_with-Alike g h cards a))

private_view-Alike :
    (g h : Game) (position : ℕ) (public : PublicView)
    → at_seat g.current position ≡ at_seat h.current position
    → private_view g position public ≡ private_view h position public
unfolding private_view
private_view-Alike g h position public own =
    bind_cong (reject (ltb position 1 || ltb 3 position) invalid_argument) _ _ _ refl
      λ _. bind_cong _ _ _ _ (ap (λ cards. lifted of_cards (card_codes cards)) own) (λ cards. refl)

-- If two live hands differ only in what a viewer must not know, they show the viewer the same:
-- that is what the other players hold, as long as it is as many cards, the deal, the fairness
-- material, and the landlord's cards while nobody is the landlord. A view for one seat shows the
-- cards of that seat, so these are the same as well.
pub view-hides :
    (g h : Game) (request : ViewRequest)
    → Alike g h
    → (request.public_only ≡ false
        → at_seat g.current request.viewer_position ≡ at_seat h.current request.viewer_position)
    → view g request ≡ view h request
unfolding view
view-hides g h request a own =
    bind_cong _ _ _ _ (ap (λ b. reject b instance_not_found) a.terminal) λ _.
      bind_cong (public_view g) (public_view h) _ _ (public_view-Alike g h a) λ public.
        bind_cong _ _ _ _ (shown_alike public) (λ shown. ap (λ n. ok (n, shown)) a.version)
  where
    shown_alike :
        (public : PublicView)
        → (if request.public_only
            then ok (public_view_of public)
            else private_view g request.viewer_position public)
          ≡ (if request.public_only
              then ok (public_view_of public)
              else private_view h request.viewer_position public)
    shown_alike public = elim (Bool-cases request.public_only) [
      | inl everyone ↦ rw everyone refl
      | inr player ↦ rw player (private_view-Alike g h request.viewer_position public (own player))
    ]
