-- ===== src/LiveHand.antt =====
-- server/business/doudizhu/domain/livehand/game.go: the state of a live hand, its commands and its
-- results. A payload in JSON is the value that is encoded; base64 and hex of bytes are the bytes.
pub mod Decode
pub mod Cards
pub mod Apply
pub mod Conserved
pub mod Turns
pub mod Invariant
pub mod Finish
pub mod View
pub mod Start
pub mod Started
pub mod Reach
use awesome_zero_platform.Base.{
  ℕ, Bool, true, false, not, ◌&&◌, ◌||◌, List, [], ◌∷◌, Option, none, some, Result, ok, err, ◌>>=◌,
  ◌==◌,
}
use awesome_zero_platform.Base.Text.{Text, codes}
use awesome_zero_platform.Base.Trio.{Trio}
use awesome_zero_platform.Bidding
use awesome_zero_platform.Carddeck
use awesome_zero_platform.Carddeck.Transcript.{Transcript}
use awesome_zero_platform.Gamecore.{Artifact, Material}
use awesome_zero_platform.Hand.{HandSeat, FairnessMode}
use awesome_zero_platform.Hand.Restore.{HandSnapshot}
use awesome_zero_platform.Playing
use awesome_zero_platform.RandomizedSetup.{Setup}
use awesome_zero_platform.Settlement

-- The values of `Game.phase` that the code assigns.
pub data Phase : Type 0 where
  bidding no_landlord playing completed aborted : Phase

abbrev pub is_bidding : Phase → Bool
is_bidding bidding = true
is_bidding _ = false

abbrev pub is_playing : Phase → Bool
is_playing playing = true
is_playing _ = false

-- The package's sentinels, those of gamecore that it wraps, and the errors it passes on.
pub data Error : Type 0 where
  unsupported_command viewer_not_seated version_conflict malformed_command card_not_held : Error
  instance_not_found unsupported_version invalid_argument : Error
  of_bidding : Bidding.Error → Error
  of_playing : Playing.Error → Error
  of_settlement : Settlement.Error → Error
  of_cards : Carddeck.Error → Error

-- `gamecore.Command`.
pub record Command : Type 0 where
  pub actor_position : ℕ
  pub expected_version : ℕ
  pub payload : Text

pub record Game : Type 0 where
  pub id : Text
  pub seats : Trio HandSeat
  pub phase : Phase
  pub version : ℕ
  pub artifact : Artifact
  pub setup : Setup
  pub material : Material
  pub transcript : Transcript
  pub auction : Bidding.State
  pub play : Option Playing.State
  pub current : Trio (List ℕ)
  pub landlord_seat : ℕ
  pub winning_score : ℕ
  pub playing_seat : ℕ
  pub winner_seat : ℕ
  pub settlement : Option Settlement.Points
  pub terminal : Bool
  pub origin : HandSnapshot
  pub history : List Command

pub record BidResult : Type 0 where
  pub hand_id : Text
  pub state_version : ℕ
  pub phase : Phase
  pub bidding : Bidding.Snapshot
  pub landlord_seat : ℕ
  pub winning_score : ℕ
  pub playing_seat : ℕ
  pub requires_termination : Bool

pub record PlayResult : Type 0 where
  pub hand_id : Text
  pub state_version : ℕ
  pub phase : Phase
  pub playing : Playing.Snapshot
  pub winner_seat : ℕ
  pub settlement : Option Settlement.Points

pub record CompletedPayload : Type 0 where
  pub fairness_mode : FairnessMode
  pub hand_id : Text
  pub state_version : ℕ
  pub setup_artifact : Text
  pub setup_digest : Text
  pub transcript : Text
  pub transcript_digest : Text
  pub bidding : Bidding.Snapshot
  pub playing : Playing.Snapshot
  pub settlement : Settlement.Points
  pub final_hands : Trio (List Text)
  pub landlord_cards : List Text
  pub landlord_seat : ℕ
  pub winning_score : ℕ
  pub winner_seat : ℕ

pub record TerminalPayload : Type 0 where
  pub fairness_mode : FairnessMode
  pub hand_id : Text
  pub reason : Text
  pub state_version : ℕ
  pub setup_artifact : Text
  pub setup_digest : Text
  pub transcript : Text
  pub transcript_digest : Text
  pub current_hands : Trio (List Text)
  pub landlord_cards : List Text

pub data Payload : Type 0 where
  bid_result : BidResult → Payload
  play_result : PlayResult → Payload

-- `gamecore.CommandOutcome`; the payload of a finished hand is there if the outcome is terminal.
pub record Outcome : Type 0 where
  pub version : ℕ
  pub payload : Payload
  pub terminal : Bool
  pub final_payload : Option CompletedPayload

-- An error of another package, as this one returns it.
abbrev pub lifted : {E A : Type 0} → (E → Error) → Result E A → Result Error A
lifted wrap (ok a) = ok a
lifted wrap (err e) = err (wrap e)
