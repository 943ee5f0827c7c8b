-- ===== src/LiveHand/Started.antt =====
-- server/business/doudizhu/domain/livehand/game.go: a live hand that `New` makes keeps the invariant.
use awesome_zero_platform.Base.{
  ℕ, zero, suc, ◌+◌, ◌≡◌, refl, sym, subst, ap, ◌∙◌, Bool, true, false, not, [], ◌∷◌, Result, ok,
  err, reject, ◌==◌, length, arith, bind_steps, ok-injective,
}
use awesome_zero_platform.Base.Text.{Text, text_eq, text_eq_iff}
use awesome_zero_platform.Bidding.First
use awesome_zero_platform.Carddeck.{deck_size, cards_per_seat, landlord_card_count}
use awesome_zero_platform.Carddeck.Deal.{DealResult}
use awesome_zero_platform.Carddeck.Deal.Counts.{deal-count}
use awesome_zero_platform.Carddeck.Deck.{count, copies, validate_deck_iff}
use awesome_zero_platform.Gamecore
use awesome_zero_platform.Gamecore.{Material, Artifact, descriptor_eq, validate_artifact}
use awesome_zero_platform.Hand.Restore.{HandSnapshot}
use awesome_zero_platform.RandomizedSetup.{Setup, verification_failed, unsupported_version}
use awesome_zero_platform.RandomizedSetup.Codec.{
  versions, matches, read_array, read_bytes, read_versions, read_setup, encode_setup, decode_setup,
}
use awesome_zero_platform.RandomizedSetup.Generate.{
  from_core, descriptor, artifact_version, decode_artifact, verify_setup,
}
use awesome_zero_platform.RandomizedSetup.RoundTrip.{encode_setup-eq_ok}
use awesome_zero_platform.Settlement.Played.{count-copies}
use awesome_zero_platform.LiveHand.{Game}
use awesome_zero_platform.LiveHand.Conserved.{in_hands}
use awesome_zero_platform.LiveHand.Invariant.{Inv}
use awesome_zero_platform.LiveHand.Start.{
  StartError, passed_on, of_setup, of_transcript, of_auction, same_setup, check_start,
  transcript_of, new,
}

length-read_bytes :
    (n : ℕ) (bytes xs left : Text) → read_bytes n bytes ≡ ok (xs, left) → length xs ≡ n
unfolding read_bytes
length-read_bytes zero bytes xs left h = ap (λ p. length p.0) (sym (ok-injective h))
length-read_bytes (suc n) [] xs left h = cc
length-read_bytes (suc n) (b ∷ bytes) xs left h =
    let (p, e, h1) = bind_steps (read_bytes n bytes) _ (xs, left) h in
    let same = ap (λ q. length q.0) (sym (ok-injective h1)) in
    omega (arith, same, length-read_bytes n bytes p.0 p.1 e)

length-deck : (bytes : Text) (s : Setup) → read_setup bytes ≡ ok s → length s.deck ≡ deck_size
unfolding read_setup
length-deck bytes s h =
    let (seed, _, h1) = bind_steps (read_array 32 bytes) _ s h in
    let (deck_digest, _, h2) = bind_steps (read_array 32 seed.1) _ s h1 in
    let (deck, e, h3) = bind_steps (read_bytes deck_size deck_digest.1) _ s h2 in
    let (deal_digest, _, h4) = bind_steps (read_array 32 deck.1) _ s h3 in
    let (first, _, h5) = bind_steps (read_bytes cards_per_seat deal_digest.1) _ s h4 in
    let (second, _, h6) = bind_steps (read_bytes cards_per_seat first.1) _ s h5 in
    let (third, _, h7) = bind_steps (read_bytes cards_per_seat second.1) _ s h6 in
    let (landlord, _, h8) = bind_steps (read_bytes landlord_card_count third.1) _ s h7 in
    let (_, _, h9) =
      bind_steps (reject (not (length landlord.1 == 0)) verification_failed) _ s h8 in
    ap (λ (x : Setup). length x.deck) (sym (ok-injective h9))
    ∙ length-read_bytes deck_size deck_digest.1 deck.0 deck.1 e

-- The cards of a setup: each stands once in a hand or among the landlord's cards.
record AllCards (s : Setup) : Type 0 where
  all : (x : ℕ) → in_hands s.hands x + count x s.landlord_cards ≡ copies x

matches-count :
    (r : DealResult) (s : Setup) (x : ℕ)
    → matches r s ≡ true
    → in_hands r.hands x + count x r.landlord_cards ≡ in_hands s.hands x + count x s.landlord_cards
matches-count r s x h =
    let first = (text_eq_iff r.hands.first s.hands.first).0 (ground (arith, h)) in
    let second = (text_eq_iff r.hands.second s.hands.second).0 (ground (arith, h)) in
    let third = (text_eq_iff r.hands.third s.hands.third).0 (ground (arith, h)) in
    let landlord = (text_eq_iff r.landlord_cards s.landlord_cards).0 (ground (arith, h)) in
    omega
      (arith, ap (count x) first, ap (count x) second, ap (count x) third, ap (count x) landlord)

decode_setup-AllCards :
    (sha256 : Text → Text) (payload : Text) (s : Setup)
    → decode_setup sha256 payload ≡ ok s
    → AllCards s
unfolding decode_setup
decode_setup-AllCards sha256 payload s h =
    let (left, _, h1) = bind_steps (read_versions versions payload) _ s h in
    let (t, read, h2) = bind_steps (read_setup left) _ s h1 in
    let (encoded, e, h3) = bind_steps (encode_setup sha256 t) _ s h2 in
    let size = length-deck left t read in
    let passed = encode_setup-eq_ok sha256 t encoded e in
    let once = (validate_deck_iff t.deck).0 passed.valid in
    let whole : AllCards t = record {
      all = λ x. omega (
        arith,
        matches-count passed.dealt t x passed.is_dealt,
        deal-count sha256 t.deck passed.dealt x size passed.from_deck,
        count-copies t.deck once size x,
      );
    } in
    subst AllCards (ok-injective h3) whole

passed_on-eq_ok :
    {E A : Type 0} (wrap : E → StartError) (r : Result E A) (a : A)
    → passed_on wrap r ≡ ok a
    → r ≡ ok a
passed_on-eq_ok wrap (ok b) a h = ap ok (ok-injective h)
passed_on-eq_ok wrap (err e) a h = cc

from_core-eq_ok : {A : Type 0} (r : Result Gamecore.Error A) (a : A) → from_core r ≡ ok a → r ≡ ok a
from_core-eq_ok (ok b) a h = ap ok (ok-injective h)
from_core-eq_ok (err e) a h = cc

decode_artifact-AllCards :
    (sha256 : Text → Text) (valid_utf8 : Text → Bool) (a : Artifact) (s : Setup)
    → decode_artifact sha256 valid_utf8 a ≡ ok s
    → AllCards s
unfolding decode_artifact
decode_artifact-AllCards sha256 valid_utf8 a s h =
    let (_, _, h1) = bind_steps (from_core (validate_artifact sha256 valid_utf8 a)) _ s h in
    let (_, _, h2) =
      bind_steps (reject (not (descriptor_eq a.descriptor descriptor)) verification_failed) _ s
        h1 in
    let (_, _, h3) =
      bind_steps (reject (not (text_eq a.version artifact_version)) unsupported_version) _ s h2 in
    decode_setup-AllCards sha256 a.payload s h3

-- A live hand that `New` makes keeps the invariant: its auction is open, and every card of the deck
-- stands exactly once in a hand or among the landlord's cards. Its version is 1 and its history empty.
pub new-Inv :
    (sha256 : Text → Text) (mac : Text → Text → Text) (valid_utf8 : Text → Bool) (fuel : ℕ)
    (s : HandSnapshot) (m : Material) (a : Artifact) (g : Game)
    → new sha256 mac valid_utf8 fuel s m a ≡ ok g
    → Inv g × (g.version ≡ 1) × (g.history ≡ []) × (g.terminal ≡ false)
unfolding new
new-Inv sha256 mac valid_utf8 fuel s m a g h =
    let (_, _, h1) = bind_steps (check_start valid_utf8 s m) _ g h in
    let (_, _, h2) =
      bind_steps (passed_on of_setup (verify_setup sha256 mac valid_utf8 fuel m a)) _ g h1 in
    let (setup, decoded, h3) =
      bind_steps (passed_on of_setup (decode_artifact sha256 valid_utf8 a)) _ g h2 in
    let (t, _, h4) =
      bind_steps (passed_on of_transcript (transcript_of sha256 mac valid_utf8 fuel m)) _ g h3 in
    let (_, _, h5) =
      bind_steps (reject (not (same_setup t setup)) StartError.verification_failed) _ g h4 in
    let (auction, made, h6) =
      bind_steps (passed_on of_auction (First.new sha256 mac fuel setup.deal_digest)) _ g h5 in
    let (keeps, is_open) =
      First.new-Inv sha256 mac fuel setup.deal_digest auction
        (passed_on-eq_ok of_auction (First.new sha256 mac fuel setup.deal_digest) auction made) in
    let cards =
      decode_artifact-AllCards sha256 valid_utf8 a setup
        (passed_on-eq_ok of_setup (decode_artifact sha256 valid_utf8 a) setup decoded) in
    rw (← ok-injective h6) (
      record {
        stage = (keeps, is_open, refl, refl);
        cards = λ x. omega (arith, cards.all x);
        extra = λ x. omega (arith, cards.all x);
      },
      refl,
      refl,
      refl,
    )
