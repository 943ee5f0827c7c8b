-- ===== src/LiveHand/Decode.antt =====
-- server/business/doudizhu/domain/livehand/game.go: the payloads of commands. `encoding/json` is the
-- parameter `json`: each field decodes a text that holds one value of the type and nothing after it;
-- all but `header` refuse fields that the type does not have.
use awesome_zero_platform.Base.{
  ℕ, not, ◌||◌, List, [], ◌∷◌, Option, none, some, Result, ok, err, ◌>>=◌, ◌>>◌, reject, ltb, ◌==◌,
  length,
}
use awesome_zero_platform.Base.Text.{Text, codes, text_eq, is_empty, trim_space}
use awesome_zero_platform.Carddeck.{parse_card}
use awesome_zero_platform.Carddeck
use awesome_zero_platform.LiveHand.{Error, malformed_command, unsupported_version}

pub record Json : Type 0 where
  pub bid : Text → Option (Text × ℕ)
  pub play : Text → Option (Text × List Text)
  pub pass : Text → Option Text
  pub header : Text → Option Text

abbrev pub bid_version : Text
bid_version = codes "doudizhu-live-bid-command-v1"

abbrev pub play_version : Text
play_version = codes "doudizhu-live-play-command-v1"

abbrev pub pass_version : Text
pass_version = codes "doudizhu-live-pass-command-v1"

abbrev or_malformed : {A : Type 0} → Option A → Result Error A
or_malformed none = err malformed_command
or_malformed (some a) = ok a

-- `decodeStrictJSON`, with the decoder for the target.
unfoldable pub decode_strict : {A : Type 0} → (Text → Option A) → Text → Result Error A
decode_strict decode payload = do
  reject (is_empty payload) malformed_command
  or_malformed (decode payload)

-- A code that `ParseCard` refuses makes the command malformed.
abbrev parsed : Result Carddeck.Error ℕ → Result Error ℕ
parsed (ok c) = ok c
parsed (err e) = err malformed_command

unfoldable pub parse_cards : List Text → Result Error (List ℕ)
parse_cards [] = ok []
parse_cards (code ∷ rest) =
    let later = parse_cards rest in
    do card ← parsed (parse_card code); cards ← later; ok (card ∷ cards)

module _ (json : Json) where
  -- `decodeBidCommand`.
  unfoldable pub decode_bid : Text → Result Error ℕ
  unfolding decode_strict
  decode_bid payload = do
    (version, score) ← decode_strict json.bid payload
    reject (not (text_eq version bid_version)) unsupported_version
    ok score

  -- `commandPayloadVersion`.
  unfoldable pub payload_version : Text → Result Error Text
  unfolding decode_strict
  payload_version payload = do
    version ← decode_strict json.header payload
    reject (is_empty (trim_space version)) malformed_command
    ok version

  -- `decodePlayCommand`.
  unfoldable pub decode_play : Text → Result Error (List ℕ)
  unfolding decode_strict parse_cards
  decode_play payload = do
    (version, cards) ← decode_strict json.play payload
    reject (not (text_eq version play_version)) unsupported_version
    reject (length cards == 0 || ltb 20 (length cards)) malformed_command
    parse_cards cards

  -- `decodePassCommand`.
  unfoldable pub decode_pass : Text → Result Error (Unit {0})
  unfolding decode_strict
  decode_pass payload = do
    version ← decode_strict json.pass payload
    reject (not (text_eq version pass_version)) unsupported_version
