-- ===== src/Scenarios/Table.antt =====
-- A live hand, from its start to the cards on the table, and its settlement.
use awesome_zero_platform.Base.{
  ℕ, ◌+◌, ◌≡◌, refl, subst, true, false, List, [], ◌∷◌, ◌++◌, Option, none, some, ok, err, arith,
  replicate, length, wrap64, ◌==◌, if◌then◌else◌,
}
use awesome_zero_platform.Base.Text.{Text, codes, text_eq, trim_space}
use awesome_zero_platform.Bidding
use awesome_zero_platform.Carddeck.Deck.{copies}
use awesome_zero_platform.Carddeck.Stream.{Stream, read}
use awesome_zero_platform.Carddeck.Stream.Laws.{read_total}
use awesome_zero_platform.Carddeck.Transcript.{
  Transcript, transcript_bytes, verify_transcript, build_transcript, versions_eq, current_versions,
}
use awesome_zero_platform.Carddeck.Transcript.Laws.{
  Agrees, verify_transcript_sound, verify-build_transcript,
}
use awesome_zero_platform.Pattern.{make_pattern, single}
use awesome_zero_platform.Playing
use awesome_zero_platform.Playing.Invariant
use awesome_zero_platform.RandomizedSetup.Codec.{decode_setup}
use awesome_zero_platform.RandomizedSetup.RoundTrip.{decode_setup-encode_setup}
use awesome_zero_platform.Settlement
use awesome_zero_platform.Settlement.{calculate}
use awesome_zero_platform.Settlement.Total.{input_for, calculate_total}
use awesome_zero_platform.LiveHand.{
  Game, Command, Outcome, TerminalPayload, playing, version_conflict,
}
use awesome_zero_platform.LiveHand.Decode.{
  Json, bid_version, play_version, pass_version, payload_version,
}
use awesome_zero_platform.LiveHand.Apply.{Candidate, bid_outcome, apply, apply_playing, abort, turn}
use awesome_zero_platform.LiveHand.Conserved.{in_game}
use awesome_zero_platform.LiveHand.Finish.{apply_playing_total, abort_total}
use awesome_zero_platform.LiveHand.Invariant.{Inv, apply_keeps, apply-unchanged, apply-counts}
use awesome_zero_platform.LiveHand.Reach.{Reachable, made, applied, Reachable-Inv, Reachable-cards}
use awesome_zero_platform.LiveHand.View.{Alike, ViewRequest, view, view-hides}
use awesome_zero_platform.Scenarios.Live.{
  ones, test_hash, test_mac, any_text, material, setup, payload, artifact, transcript, dealt_hand,
  is_hash, encoded_ok, canonical_ok, setup_Sized,
}
use awesome_zero_platform.Scenarios.Started.{game, started_ok, built_ok, verified_transcript_ok}

-- A decoder: the first byte tells the kind of the command, the rest is its score or its one card.
abbrev pub read_bid : Text → Option (Text × ℕ)
read_bid (kind ∷ score ∷ []) = if kind == 66 then some (bid_version, score) else none
read_bid _ = none

abbrev pub read_play : Text → Option (Text × List Text)
read_play (kind ∷ card) = if kind == 80 then some (play_version, card ∷ []) else none
read_play [] = none

abbrev pub read_header : Text → Option Text
read_header (kind ∷ rest) =
    if kind == 80 then some play_version else if kind == 66 then some bid_version else none
read_header [] = none

abbrev pub test_json : Json
test_json = record {
  bid = read_bid;
  play = read_play;
  pass = λ bytes. some pass_version;
  header = read_header;
}

-- Seat 1 bids three points at once.
abbrev pub bid_three : Command
bid_three = record { actor_position = 1; expected_version = 1; payload = 66 ∷ 3 ∷ [] }

abbrev pub stale_bid : Command
stale_bid = record { actor_position = 1; expected_version = 7; payload = 66 ∷ 3 ∷ [] }

abbrev R : Game → Type 0
R = Reachable test_hash test_mac any_text 4 test_json

game_reached : R game
game_reached = made dealt_hand material artifact game started_ok

game_Inv : Inv game
game_Inv = Reachable-Inv test_hash test_mac any_text 4 test_json game game_reached

Reachable-cards_example : in_game (apply test_hash test_json game bid_three).0 52 ≡ copies 52
Reachable-cards_example =
    Reachable-cards test_hash test_mac any_text 4 test_json
      (apply test_hash test_json game bid_three).0 52 (applied game bid_three game_reached)

apply_keeps_example : Inv (apply test_hash test_json game bid_three).0
apply_keeps_example = apply_keeps test_hash test_json game bid_three game_Inv

stale_refused : apply test_hash test_json game stale_bid ≡ (game, err version_conflict)
unfolding apply
stale_refused = refl

apply-unchanged_example : game ≡ game
apply-unchanged_example =
    apply-unchanged test_hash test_json game game stale_bid version_conflict game_Inv stale_refused

-- The game in which seat 1 is the landlord.
abbrev pub turns : Playing.State
turns = record {
  revision = 0;
  current_seat = 1;
  leading_seat = 0;
  leading_cards = [];
  leading_pattern = none;
  pass_count = 0;
  complete = false;
  winner_seat = 0;
  history = [];
}

abbrev pub auction : Bidding.State
auction = record {
  first_bidder = 1;
  current_bidder = 0;
  highest_score = 3;
  highest_bidder = 1;
  actions =
      record { position = 1; score = 3 }
      ∷ record { position = 0; score = 0 }
      ∷ record { position = 0; score = 0 }
      ∷ [];
  action_count = 1;
  complete = true;
  no_landlord = false;
  landlord = 1;
}

abbrev pub landlord_game : Game
landlord_game = record game {
  phase = playing;
  version = 2;
  auction = auction;
  play = some turns;
  current = record setup.hands { first = setup.hands.first ++ setup.landlord_cards };
  landlord_seat = 1;
  winning_score = 3;
  playing_seat = 1;
  history = bid_three ∷ [];
}

abbrev bid_result : Outcome
bid_result = bid_outcome landlord_game false

bid_accepted : apply test_hash test_json game bid_three ≡ (landlord_game, ok bid_result)
unfolding apply awesome_zero_platform.LiveHand.Apply.with_history
    awesome_zero_platform.LiveHand.Apply.apply_score
    awesome_zero_platform.LiveHand.Decode.decode_bid text_eq
    awesome_zero_platform.LiveHand.Apply.submitted Bidding.submit Bidding.new_state
    awesome_zero_platform.LiveHand.Apply.after_bid awesome_zero_platform.LiveHand.Apply.with_turns
    Playing.new_state awesome_zero_platform.LiveHand.Apply.start_play
bid_accepted = refl

apply-counts_example :
    (landlord_game.version ≡ wrap64 (game.version + 1))
    × (landlord_game.history ≡ game.history ++ bid_three ∷ [])
    × (bid_result.version ≡ landlord_game.version)
    × (bid_result.terminal ≡ landlord_game.terminal)
apply-counts_example =
    apply-counts test_hash test_json game landlord_game bid_three bid_result game_Inv bid_accepted

landlord_Inv : Inv landlord_game
landlord_Inv =
    subst (λ p. Inv p.0) bid_accepted (apply_keeps test_hash test_json game bid_three game_Inv)

-- The landlord plays the six of clubs.
abbrev pub six : Command
six = record { actor_position = 1; expected_version = 2; payload = 80 ∷ codes "C6" }

abbrev after_six : Playing.State
after_six = record {
  revision = 1;
  current_seat = 2;
  leading_seat = 1;
  leading_cards = 12 ∷ [];
  leading_pattern = some (make_pattern single 3 1 1);
  pass_count = 0;
  complete = false;
  winner_seat = 0;
  history =
      record {
        number = 1;
        type = Playing.play_action;
        seat = 1;
        cards = 12 ∷ [];
        pattern = some (make_pattern single 3 1 1);
      }
      ∷ [];
}

abbrev candidate : Candidate
candidate = (
  after_six,
  record setup.hands {
    first =
        9 ∷ 13 ∷ 22 ∷ 2 ∷ 33 ∷ 16 ∷ 28 ∷ 25 ∷ 29 ∷ 32 ∷ 17 ∷ 11 ∷ 42 ∷ 40 ∷ 5 ∷ 1
        ∷ setup.landlord_cards;
  },
)

six_read : payload_version test_json six.payload ≡ ok play_version
unfolding payload_version trim_space
six_read = refl

six_turn : turn test_json landlord_game turns six play_version ≡ ok candidate
unfolding turn text_eq awesome_zero_platform.LiveHand.Apply.play_turn
    awesome_zero_platform.LiveHand.Decode.decode_play awesome_zero_platform.Carddeck.parse_card
    awesome_zero_platform.LiveHand.Cards.remove_held_cards Playing.play Playing.validate_actor
    awesome_zero_platform.Pattern.Analyze.analyze awesome_zero_platform.Pattern.Counts.rank_counts
    awesome_zero_platform.Carddeck.rank awesome_zero_platform.Pattern.Analyze.classify
    Playing.check_beats Playing.write_play
six_turn = refl

apply_playing_total_example :
    (h : Game) × (o : Outcome) × (apply_playing test_hash test_json landlord_game six ≡ ok (h, o))
    × (o.terminal ≡ false)
apply_playing_total_example =
    apply_playing_total test_hash test_json landlord_game six (transcript_bytes transcript)
      play_version turns candidate landlord_Inv refl canonical_ok refl six_read refl six_turn

stop_trimmed : trim_space (codes " stop") ≡ codes "stop"
unfolding trim_space
stop_trimmed = refl

abort_total_example :
    (h : Game) × (p : TerminalPayload) × (abort test_hash landlord_game (codes " stop") ≡ ok (h, p))
    × Inv h
    × (h.terminal ≡ true)
    × (p.reason ≡ trim_space (codes " stop"))
    × (p.state_version ≡ wrap64 (landlord_game.version + 1))
    × (h.version ≡ p.state_version)
abort_total_example =
    abort_total test_hash landlord_game (codes " stop") (transcript_bytes transcript) landlord_Inv
      refl canonical_ok (rw stop_trimmed (omega arith)) (rw stop_trimmed (omega arith))

-- The same table with the hands of the farmers exchanged.
abbrev exchanged : Game
exchanged = record landlord_game {
  current = record landlord_game.current { second = setup.hands.third; third = setup.hands.second };
}

exchanged-Alike : Alike landlord_game exchanged
exchanged-Alike = record {
  id = refl;
  seats = refl;
  phase = refl;
  version = refl;
  terminal = refl;
  setup_digest = refl;
  deck_digest = refl;
  deal_digest = refl;
  auction = refl;
  play = refl;
  first = refl;
  second = refl;
  third = refl;
  landlord_seat = refl;
  landlord_cards = λ _. refl;
  winning_score = refl;
  playing_seat = refl;
  winner_seat = refl;
  settlement = refl;
}

abbrev landlord_looks : ViewRequest
landlord_looks = record { viewer_position = 1; public_only = false }

view-hides_example : view landlord_game landlord_looks ≡ view exchanged landlord_looks
view-hides_example = view-hides landlord_game exchanged landlord_looks exchanged-Alike (λ _. refl)

-- The landlord empties the hand with one card.
abbrev last_card : Playing.State
last_card = record after_six { current_seat = 0; complete = true; winner_seat = 1 }

last_card_played : Playing.play turns 1 (12 ∷ []) true ≡ ok last_card
unfolding Playing.play Playing.validate_actor awesome_zero_platform.Pattern.Analyze.analyze
    awesome_zero_platform.Pattern.Counts.rank_counts awesome_zero_platform.Carddeck.rank
    awesome_zero_platform.Pattern.Analyze.classify Playing.check_beats Playing.write_play
last_card_played = refl

turns_made : Playing.new_state 1 ≡ ok turns
unfolding Playing.new_state
turns_made = refl

last_card_Inv : Playing.Invariant.Inv last_card
last_card_Inv =
    Playing.Invariant.play-Inv turns last_card 1 (12 ∷ []) true
      (Playing.Invariant.new_state-Inv 1 turns turns_made) last_card_played

calculate_total_example : (r : Settlement.Points) × (calculate (input_for 1 3 last_card) ≡ ok r)
calculate_total_example =
    calculate_total 1 3 last_card (omega arith) (omega arith) (omega arith) (omega arith)
      last_card_Inv refl (λ x. ground arith)

verify_transcript_sound_example :
    (versions_eq transcript.versions current_versions ≡ true)
    × ((u : Transcript) × (build_transcript test_hash test_mac 4 transcript.input ≡ ok u)
        × Agrees transcript u)
verify_transcript_sound_example =
    verify_transcript_sound test_hash test_mac 4 transcript verified_transcript_ok

verify-build_transcript_example : verify_transcript test_hash test_mac 4 transcript ≡ ok tt
verify-build_transcript_example =
    verify-build_transcript test_hash test_mac 4 transcript.input transcript is_hash built_ok

decode_setup-encode_setup_example : decode_setup test_hash payload ≡ ok setup
decode_setup-encode_setup_example =
    decode_setup-encode_setup test_hash setup payload setup_Sized encoded_ok

abbrev new_source : Stream
new_source = record { key = ones; counter = 0; block = replicate 32 0; offset = 32 }

is_mac : (key bytes : Text) → length (test_mac key bytes) ≡ 32
is_mac key bytes = refl

read_total_example :
    (bytes : Text) × (t : Stream) × (read test_mac 40 new_source ≡ some (bytes, t))
    × (length bytes ≡ 40)
    × (length t.block ≡ 32)
read_total_example = read_total test_mac is_mac 40 new_source refl
