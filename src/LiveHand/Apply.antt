-- ===== src/LiveHand/Apply.antt =====
-- server/business/doudizhu/domain/livehand/game.go: `Apply`, `applyBid`, `applyPlaying` and `Abort`.
-- A method returns the game that it leaves, also beside an error.
use awesome_zero_platform.Base.{
  ℕ, ◌+◌, Bool, true, false, not, ◌&&◌, ◌||◌, List, [], ◌∷◌, ◌++◌, Option, none, some, Result, ok,
  err, ◌>>=◌, ◌>>◌, reject, ltb, ◌==◌, if◌then◌else◌, length, wrap64,
}
use awesome_zero_platform.Base.Text.{Text, text_eq, is_empty, trim_space}
use awesome_zero_platform.Base.Trio.{Trio, at_seat, set_seat}
use awesome_zero_platform.Bidding
use awesome_zero_platform.Carddeck
use awesome_zero_platform.Carddeck.Deal.{zero_digest}
use awesome_zero_platform.Carddeck.Transcript.{canonical_bytes}
use awesome_zero_platform.Playing
use awesome_zero_platform.Settlement
use awesome_zero_platform.Gamecore.{Material}
use awesome_zero_platform.LiveHand.{
  Phase, no_landlord, playing, completed, aborted, is_bidding, is_playing, Error,
  unsupported_command, version_conflict, instance_not_found, unsupported_version, invalid_argument,
  of_bidding, of_playing, of_settlement, of_cards, Command, Game, CompletedPayload, TerminalPayload,
  bid_result, play_result, Outcome, lifted,
}
use awesome_zero_platform.LiveHand.Decode.{
  Json, play_version, pass_version, bid_version, decode_bid, payload_version, decode_play,
  decode_pass,
}
use awesome_zero_platform.LiveHand.Cards.{remove_held_cards, card_codes}

-- The outcome of a bid on the game after it.
abbrev pub bid_outcome : Game → Bool → Outcome
bid_outcome g requires_termination = record {
  version = g.version;
  payload = bid_result (record {
    hand_id = g.id;
    state_version = g.version;
    phase = g.phase;
    bidding = Bidding.snapshot g.auction;
    landlord_seat = g.landlord_seat;
    winning_score = g.winning_score;
    playing_seat = g.playing_seat;
    requires_termination = requires_termination;
  });
  terminal = false;
  final_payload = none;
}

-- The game in which the landlord of the auction starts to play.
unfoldable pub start_play : Game → Playing.State → Game
start_play g turns =
    let landlord = g.auction.landlord in
    record g {
      current = set_seat g.current landlord (at_seat g.current landlord ++ g.setup.landlord_cards);
      landlord_seat = landlord;
      winning_score = g.auction.highest_score;
      playing_seat = landlord;
      play = some turns;
      phase = playing;
    }

unfoldable pub with_turns : Game → Result Playing.Error Playing.State → Game × Result Error Outcome
with_turns g (err e) = (g, err (of_playing e))
with_turns g (ok turns) = let h = start_play g turns in (h, ok (bid_outcome h false))

-- `applyBid` after the bid.
unfoldable pub after_bid : Game → Game × Result Error Outcome
after_bid g =
    if not g.auction.complete
    then (g, ok (bid_outcome g false))
    else if g.auction.no_landlord
    then (let h : Game = record g { phase = no_landlord } in (h, ok (bid_outcome h true)))
    else if not (g.auction.landlord == 0)
    then with_turns g (Playing.new_state g.auction.landlord)
    else (g, ok (bid_outcome g false))

unfoldable pub submitted : Game → Result Bidding.Error Bidding.State → Game × Result Error Outcome
submitted g (err e) = (g, err (of_bidding e))
submitted g (ok auction) =
    after_bid (record g { auction = auction; version = wrap64 (g.version + 1) })

unfoldable pub apply_score : Game → Command → Result Error ℕ → Game × Result Error Outcome
apply_score g c (err e) = (g, err e)
apply_score g c (ok score) = submitted g (Bidding.submit g.auction c.actor_position score)

abbrev pub or_missing : Option Playing.State → Result Error Playing.State
or_missing none = err unsupported_command
or_missing (some s) = ok s

-- The candidate state of the play, and the candidate hands.
abbrev pub Candidate : Type 0
Candidate = Playing.State × Trio (List ℕ)

abbrev pub code_trio : Trio (List ℕ) → Result Carddeck.Error (Trio (List Text))
code_trio t = do
  first ← card_codes t.first
  second ← card_codes t.second
  third ← card_codes t.third
  ok (record { first = first; second = second; third = third })

-- `clearMaterial`: the slice of participants is dropped, and the seed is cleared.
unfoldable pub clear_material : Material → Material
clear_material m = record m { server_seed = zero_digest; participants = [] }

abbrev pub settlement_input : Game → Playing.State → Settlement.Input
settlement_input g s = record {
  landlord_seat = g.landlord_seat;
  winning_score = g.winning_score;
  playing = Playing.snapshot s;
}

abbrev pub play_outcome :
    Game
    → ℕ
    → Phase
    → Playing.State
    → Option Settlement.Points
    → Option CompletedPayload
    → Bool
    → Outcome
play_outcome g version phase s result final_payload terminal = record {
  version = version;
  payload = play_result (record {
    hand_id = g.id;
    state_version = version;
    phase = phase;
    playing = Playing.snapshot s;
    winner_seat = s.winner_seat;
    settlement = result;
  });
  terminal = terminal;
  final_payload = final_payload;
}

-- The game after a turn that does not end the hand.
unfoldable pub take_turn : Game → Candidate → Game
take_turn g (s, hands) = record g {
  play = some s;
  current = hands;
  version = wrap64 (g.version + 1);
  playing_seat = s.current_seat;
}

-- The game after the turn that ends the hand.
unfoldable pub finish_game : Game → Candidate → Settlement.Points → Game
unfolding take_turn
finish_game g candidate points =
    let h = take_turn g candidate in
    record h {
      phase = completed;
      winner_seat = candidate.0.winner_seat;
      settlement = some points;
      terminal = true;
      material = clear_material g.material;
    }

abbrev pub or_same : Game → Result Error (Game × Outcome) → Game × Result Error Outcome
or_same g (err e) = (g, err e)
or_same g (ok (h, o)) = (h, ok o)

-- The history grows by a command that is accepted.
unfoldable pub with_history : Command → Game × Result Error Outcome → Game × Result Error Outcome
with_history c (g, err e) = (g, err e)
with_history c (g, ok o) = (record g { history = g.history ++ c ∷ [] }, ok o)

module _ (json : Json) where
  -- The case of a play: the cards leave the hand, and the hand is empty or not.
  unfoldable pub play_turn : Game → Playing.State → Command → Result Error Candidate
  play_turn g s c = do
    cards ← decode_play json c.payload
    remaining ← remove_held_cards (at_seat g.current c.actor_position) cards
    t ← lifted of_playing (Playing.play s c.actor_position cards (length remaining == 0))
    ok (t, set_seat g.current c.actor_position remaining)

  unfoldable pub pass_turn : Game → Playing.State → Command → Result Error Candidate
  pass_turn g s c = do
    decode_pass json c.payload
    t ← lifted of_playing (Playing.pass s c.actor_position)
    ok (t, g.current)

  -- The `switch` on the version of the command.
  unfoldable pub turn : Game → Playing.State → Command → Text → Result Error Candidate
  turn g s c version =
      if text_eq version play_version
      then play_turn g s c
      else if text_eq version pass_version
      then pass_turn g s c
      else if text_eq version bid_version
      then err unsupported_command
      else err unsupported_version

module _ (sha256 : Text → Text) where
  -- `buildCompletedPayload`.
  unfoldable pub completed_payload :
      Game
      → ℕ
      → Playing.Snapshot
      → Settlement.Points
      → Trio (List ℕ)
      → Result Error CompletedPayload
  completed_payload g version play result hands = do
    transcript ← lifted of_cards (canonical_bytes sha256 g.transcript)
    final_hands ← lifted of_cards (code_trio hands)
    landlord_cards ← lifted of_cards (card_codes g.setup.landlord_cards)
    ok (record {
      fairness_mode = g.origin.fairness_mode;
      hand_id = g.id;
      state_version = version;
      setup_artifact = g.artifact.payload;
      setup_digest = g.artifact.digest;
      transcript = transcript;
      transcript_digest = g.transcript.transcript_digest;
      bidding = Bidding.snapshot g.auction;
      playing = play;
      settlement = result;
      final_hands = final_hands;
      landlord_cards = landlord_cards;
      landlord_seat = g.landlord_seat;
      winning_score = g.winning_score;
      winner_seat = play.winner_seat;
    })

  -- `applyPlaying` after the turn on the candidate.
  unfoldable pub conclude : Game → Candidate → Result Error (Game × Outcome)
  conclude g candidate =
      let version = wrap64 (g.version + 1) in
      let s = candidate.0 in
      if s.complete
      then (do
        points ← lifted of_settlement (Settlement.calculate (settlement_input g s))
        final ← completed_payload g version (Playing.snapshot s) points candidate.1
        ok (
          finish_game g candidate points,
          play_outcome g version completed s (some points) (some final) true,
        ))
      else ok (take_turn g candidate, play_outcome g version playing s none none false)

  module _ (json : Json) where
    -- `applyPlaying`: the game is written at its end only.
    unfoldable pub apply_playing : Game → Command → Result Error (Game × Outcome)
    apply_playing g c = do
      s ← or_missing g.play
      version ← payload_version json c.payload
      reject (not (c.actor_position == s.current_seat)) (of_playing Playing.wrong_turn)
      candidate ← turn json g s c version
      conclude g candidate

    -- `Apply`.
    unfoldable pub apply : Game → Command → Game × Result Error Outcome
    apply g c =
        if g.terminal
        then (g, err instance_not_found)
        else if not (is_bidding g.phase) && not (is_playing g.phase)
        then (g, err unsupported_command)
        else if not (c.expected_version == g.version)
        then (g, err version_conflict)
        else with_history c (
            if is_playing g.phase
            then or_same g (apply_playing g c)
            else apply_score g c (decode_bid json c.payload))

  -- `Abort`.
  unfoldable pub abort : Game → Text → Result Error (Game × TerminalPayload)
  abort g given_reason =
      let reason = trim_space given_reason in
      do
        reject g.terminal instance_not_found
        reject (is_empty reason || ltb 128 (length reason)) invalid_argument
        transcript ← lifted of_cards (canonical_bytes sha256 g.transcript)
        current ← lifted of_cards (code_trio g.current)
        landlord ← lifted of_cards (card_codes g.setup.landlord_cards)
        let version = wrap64 (g.version + 1)
        ok (
          record g {
            version = version;
            phase = aborted;
            terminal = true;
            material = clear_material g.material;
          },
          record {
            fairness_mode = g.origin.fairness_mode;
            hand_id = g.id;
            reason = reason;
            state_version = version;
            setup_artifact = g.artifact.payload;
            setup_digest = g.artifact.digest;
            transcript = transcript;
            transcript_digest = g.transcript.transcript_digest;
            current_hands = current;
            landlord_cards = landlord;
          },
        )
