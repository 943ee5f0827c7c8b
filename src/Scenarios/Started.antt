-- ===== src/Scenarios/Started.antt =====
-- A live hand that is made: its transcript, its first bidder and the new game.
use awesome_zero_platform.Base.{ℕ, ◌≡◌, refl, [], none, ok, true, false, replicate, ◌+◌}
use awesome_zero_platform.Base.Text.{codes, text_eq, trim_space}
use awesome_zero_platform.Bidding
use awesome_zero_platform.Bidding.First
use awesome_zero_platform.Bidding.First.{derive_first_bidder}
use awesome_zero_platform.Carddeck.{validate_deck}
use awesome_zero_platform.Carddeck.Deal.{validate_deal, compute_digest, reconstruct_deck}
use awesome_zero_platform.Carddeck.Random.{threshold}
use awesome_zero_platform.Carddeck.Seed.{
  all_zero, validate_text, server_commitment, client_commitment,
}
use awesome_zero_platform.Carddeck.Transcript.{
  undigested, canonical_bytes, transcript_bytes, validate_transcript_input, validate_contribution,
  versions_eq, current_versions, build_transcript, verify_transcript, digest_transcript,
}
use awesome_zero_platform.Carddeck.Transcript.Laws.{verify-build_transcript}
use awesome_zero_platform.Domain.{validate_identifier, is_identifier}
use awesome_zero_platform.Hand.{
  Hand, Contribution, validate_hand_seats, validate_hand_seat, validate_beacon_plan, any_of,
}
use awesome_zero_platform.Hand.Restore.{
  restore_hand, check_snapshot, restored, validate_snapshot_state,
}
use awesome_zero_platform.Gamecore.{validate_material, descriptor_eq}
use awesome_zero_platform.Gamecore.Random.{next_word}
use awesome_zero_platform.LiveHand.{Game, bidding}
use awesome_zero_platform.LiveHand.Start.{transcript_input, transcript_of, check_start, new}
use awesome_zero_platform.Scenarios.Live.{
  ones, test_hash, test_mac, any_text, material, deck, dealt, setup, artifact, transcript,
  dealt_hand, shuffled_ok, dealt_ok, decoded_ok, verified_ok, is_hash,
}

undigested_ok :
    canonical_bytes test_hash (
      undigested
        (transcript_input material)
        (record { seed = ones; deck = deck; deck_digest = ones })
        dealt)
    ≡ ok (transcript_bytes transcript)
unfolding canonical_bytes versions_eq text_eq undigested current_versions validate_transcript_input
    validate_text trim_space server_commitment all_zero validate_contribution client_commitment
    validate_deck validate_deal reconstruct_deck compute_digest transcript_bytes
undigested_ok = refl

input_ok : validate_transcript_input test_hash (transcript_input material) ≡ ok tt
unfolding validate_transcript_input validate_text trim_space text_eq server_commitment all_zero
    validate_contribution client_commitment
input_ok = refl

pub built_ok : build_transcript test_hash test_mac 4 (transcript_input material) ≡ ok transcript
unfolding build_transcript undigested digest_transcript current_versions
built_ok = rw (input_ok, shuffled_ok, dealt_ok, undigested_ok) refl

pub verified_transcript_ok : verify_transcript test_hash test_mac 4 transcript ≡ ok tt
verified_transcript_ok =
    verify-build_transcript test_hash test_mac 4 (transcript_input material) transcript is_hash
      built_ok

transcript_ok : transcript_of test_hash test_mac any_text 4 material ≡ ok transcript
unfolding transcript_of
transcript_ok = rw (built_ok, verified_transcript_ok) refl

valid_material_ok : validate_material any_text material ≡ ok tt
unfolding validate_material awesome_zero_platform.Gamecore.validate_descriptor
    awesome_zero_platform.Gamecore.validate_identifier trim_space text_eq all_zero
    awesome_zero_platform.Gamecore.validate_participants
valid_material_ok = refl

checked_ok : check_snapshot dealt_hand ≡ ok tt
unfolding check_snapshot validate_identifier is_identifier trim_space validate_hand_seats
    validate_hand_seat any_of text_eq awesome_zero_platform.Hand.all_zero validate_beacon_plan
checked_ok = refl

abbrev opened : ℕ → Contribution
opened seat = record {
  commitment = ones;
  revealed = true;
  digest = replicate 32 (seat + 1);
  record_ref = codes "record";
}

abbrev hand : Hand
hand = restored dealt_hand (record { first = opened 1; second = opened 2; third = opened 3 })

valid_hand_ok : validate_snapshot_state hand ≡ ok tt
unfolding validate_snapshot_state text_eq awesome_zero_platform.Hand.Restore.counts_fit
valid_hand_ok = refl

restored_ok : restore_hand dealt_hand ≡ ok hand
unfolding restore_hand awesome_zero_platform.Hand.Restore.check_beacon text_eq
    awesome_zero_platform.Hand.all_zero trim_space
    awesome_zero_platform.Hand.Restore.restore_contribution
    awesome_zero_platform.Hand.Restore.check_revealed
restored_ok = rw (checked_ok, valid_hand_ok) refl

start_ok : check_start any_text dealt_hand material ≡ ok tt
unfolding check_start text_eq descriptor_eq
start_ok = rw (restored_ok, valid_material_ok) refl

pub auction_ok : First.new test_hash test_mac 4 ones ≡ ok (Bidding.new_state 1)
unfolding First.new all_zero awesome_zero_platform.Gamecore.Random.new_stream
    awesome_zero_platform.Gamecore.Random.uniform awesome_zero_platform.Carddeck.Random.uniform_loop
    threshold next_word
auction_ok = refl

abbrev pub game : Game
game = record {
  id = material.instance_id;
  seats = dealt_hand.seats;
  phase = bidding;
  version = 1;
  artifact = artifact;
  setup = setup;
  material = material;
  transcript = transcript;
  auction = Bidding.new_state 1;
  play = none;
  current = setup.hands;
  landlord_seat = 0;
  winning_score = 0;
  playing_seat = 0;
  winner_seat = 0;
  settlement = none;
  terminal = false;
  origin = dealt_hand;
  history = [];
}

pub started_ok : new test_hash test_mac any_text 4 dealt_hand material artifact ≡ ok game
unfolding new text_eq
started_ok = rw (start_ok, verified_ok, decoded_ok, transcript_ok, auction_ok) refl
