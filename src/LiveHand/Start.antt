-- ===== src/LiveHand/Start.antt =====
-- server/business/doudizhu/domain/livehand/game.go: `New`, a live hand from a hand that is dealt, its
-- fairness material and its setup.
use awesome_zero_platform.Base.{
  ℕ, Bool, true, false, not, ◌&&◌, ◌||◌, [], Option, none, some, Result, ok, err, ◌>>=◌, ◌>>◌,
  reject, ◌==◌,
}
use awesome_zero_platform.Base.Text.{Text, text_eq}
use awesome_zero_platform.Bidding.First
use awesome_zero_platform.Carddeck.Transcript.{
  Transcript, TranscriptInput, Contribution, Fault, build_transcript, verify_transcript,
}
use awesome_zero_platform.Domain
use awesome_zero_platform.Gamecore
use awesome_zero_platform.Gamecore.{
  Material, Participant, Artifact, Beacon, descriptor_eq, validate_material,
}
use awesome_zero_platform.Hand.{HandPhase, dealing, BeaconValue}
use awesome_zero_platform.Hand.Restore.{HandSnapshot, ContributionSnapshot, restore_hand}
use awesome_zero_platform.RandomizedSetup
use awesome_zero_platform.RandomizedSetup.{Setup}
use awesome_zero_platform.RandomizedSetup.Generate.{
  descriptor, participant, decode_artifact, verify_setup,
}
use awesome_zero_platform.LiveHand.{Game, bidding}

-- The errors that `New` returns or passes on.
pub data StartError : Type 0 where
  wrong_phase invalid_argument verification_failed : StartError
  of_domain : Domain.Error → StartError
  of_core : Gamecore.Error → StartError
  of_setup : RandomizedSetup.Error → StartError
  of_transcript : Fault → StartError
  of_auction : First.Fault → StartError

abbrev pub passed_on : {E A : Type 0} → (E → StartError) → Result E A → Result StartError A
passed_on wrap (ok a) = ok a
passed_on wrap (err e) = err (wrap e)

abbrev is_dealing : HandPhase → Bool
is_dealing dealing = true
is_dealing _ = false

-- The evidence of the beacon in the hand's snapshot is that of the material.
abbrev same_beacon : Option BeaconValue → Beacon → Bool
same_beacon none b = false
same_beacon (some v) b =
    text_eq v.provider b.provider
    && text_eq v.round b.round
    && text_eq v.digest b.digest
    && text_eq v.proof_ref b.proof_ref

-- The test of the loop over the contributions, negated.
abbrev same_contribution : ContributionSnapshot → Participant → Bool
same_contribution c p =
    c.committed
    && c.revealed
    && p.position == c.seat
    && text_eq p.contribution c.digest
    && text_eq p.commitment c.commitment

abbrev pub same_setup : Transcript → Setup → Bool
same_setup t s =
    text_eq t.deck s.deck
    && text_eq t.deck_digest s.deck_digest
    && text_eq t.dealt.hands.first s.hands.first
    && text_eq t.dealt.hands.second s.hands.second
    && text_eq t.dealt.hands.third s.hands.third
    && text_eq t.dealt.landlord_cards s.landlord_cards
    && text_eq t.deal_digest s.deal_digest

abbrev contribution_of : Participant → Contribution
contribution_of p = record { seat = p.position; digest = p.contribution; commitment = p.commitment }

-- The input that `buildTranscript` makes of the material.
abbrev pub transcript_input : Material → TranscriptInput
transcript_input m = record {
  hand_id = m.instance_id;
  server_seed = m.server_seed;
  server_commitment = m.server_commitment;
  contributions = record {
    first = contribution_of (participant m.participants 0);
    second = contribution_of (participant m.participants 1);
    third = contribution_of (participant m.participants 2);
  };
  beacon = record {
    provider = m.beacon.provider;
    round = m.beacon.round;
    digest = m.beacon.digest;
    proof_ref = m.beacon.proof_ref;
  };
  reveal_key = record {
    key_id = m.reveal_key.key_id;
    public_key_sha256 = m.reveal_key.public_key_sha256;
  };
}

-- The checks of `New` on the snapshot and the material.
module _ (valid_utf8 : Text → Bool) where
  unfoldable pub check_start : HandSnapshot → Material → Result StartError (Unit {0})
  check_start s m = do
    reject (not (is_dealing s.phase)) wrong_phase
    hand ← passed_on of_domain (restore_hand s)
    passed_on of_core (validate_material valid_utf8 m)
    reject (not (text_eq m.instance_id s.id) || not (descriptor_eq m.descriptor descriptor))
        invalid_argument
    reject (not (text_eq s.server_commitment m.server_commitment)) verification_failed
    reject (not (same_beacon s.beacon m.beacon)) verification_failed
    reject
        (not (text_eq s.reveal_key_id m.reveal_key.key_id)
          || not (text_eq s.reveal_public_key_sha256 m.reveal_key.public_key_sha256))
        verification_failed
    reject (not (same_contribution s.contributions.first (participant m.participants 0)))
        verification_failed
    reject (not (same_contribution s.contributions.second (participant m.participants 1)))
        verification_failed
    reject (not (same_contribution s.contributions.third (participant m.participants 2)))
        verification_failed

module _ (sha256 : Text → Text) (mac : Text → Text → Text) (valid_utf8 : Text → Bool)
    (fuel : ℕ) where
  -- `buildTranscript`.
  unfoldable pub transcript_of : Material → Result Fault Transcript
  transcript_of m = do
    t ← build_transcript sha256 mac fuel (transcript_input m)
    verify_transcript sha256 mac fuel t
    ok t

  -- `New`.
  unfoldable pub new : HandSnapshot → Material → Artifact → Result StartError Game
  new s m artifact = do
    check_start valid_utf8 s m
    passed_on of_setup (verify_setup sha256 mac valid_utf8 fuel m artifact)
    setup ← passed_on of_setup (decode_artifact sha256 valid_utf8 artifact)
    transcript ← passed_on of_transcript (transcript_of m)
    reject (not (same_setup transcript setup)) verification_failed
    auction ← passed_on of_auction (First.new sha256 mac fuel setup.deal_digest)
    ok (record {
      id = m.instance_id;
      seats = s.seats;
      phase = bidding;
      version = 1;
      artifact = artifact;
      setup = setup;
      material = m;
      transcript = transcript;
      auction = auction;
      play = none;
      current = setup.hands;
      landlord_seat = 0;
      winning_score = 0;
      playing_seat = 0;
      winner_seat = 0;
      settlement = none;
      terminal = false;
      origin = s;
      history = [];
    })
