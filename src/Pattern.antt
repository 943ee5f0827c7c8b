-- ===== src/Pattern.antt =====
-- server/business/doudizhu/domain/playing/pattern.go: which cards may be played together, and which
-- play beats which.
pub mod Counts
pub mod Analyze
pub mod Counted
pub mod Valid
pub mod Order
use awesome_zero_platform.Base.{
  ℕ, zero, suc, ◌+◌, ◌-◌, ◌*◌, ◌/◌, ◌%◌, Bool, true, false, not, ◌&&◌, ◌||◌, List, [], ◌∷◌, Option,
  none, some, Result, ok, err, ◌>>=◌, ◌>>◌, reject, ltb, leb, ◌==◌, if◌then◌else◌, length, get_or,
  set, replicate,
}
use awesome_zero_platform.Base.Text.{Text, codes, text_eq}
use awesome_zero_platform.Carddeck.{
  deck_size, rank_three, rank_ace, rank_two, rank_small_joker, rank_big_joker, card_valid, rank,
}

-- `unknown` stands for every string that is not one of the constants.
pub data Kind : Type 0 where
  single pair triple triple_with_single triple_with_pair straight consecutive_pairs : Kind
  airplane airplane_with_singles airplane_with_pairs : Kind
  four_with_two_singles four_with_two_pairs bomb rocket unknown : Kind

-- `==` on kinds goes by a number for each constant.
unfoldable pub kind_id : Kind → ℕ
kind_id single = 0
kind_id pair = 1
kind_id triple = 2
kind_id triple_with_single = 3
kind_id triple_with_pair = 4
kind_id straight = 5
kind_id consecutive_pairs = 6
kind_id airplane = 7
kind_id airplane_with_singles = 8
kind_id airplane_with_pairs = 9
kind_id four_with_two_singles = 10
kind_id four_with_two_pairs = 11
kind_id bomb = 12
kind_id rocket = 13
kind_id unknown = 14

pub data Error : Type 0 where
  invalid_pattern invalid_pattern_value carddeck_error : Error

abbrev pub rules_version : Text
rules_version = codes "doudizhu-play-rules-v1"

pub record Pattern : Type 0 where
  pub version : Text
  pub kind : Kind
  pub main_rank : ℕ
  pub sequence_length : ℕ
  pub card_count : ℕ

-- `pattern`; the two lengths become `uint8`.
abbrev pub make_pattern : Kind → ℕ → ℕ → ℕ → Pattern
make_pattern kind rank sequence_length card_count = record {
  version = rules_version;
  kind = kind;
  main_rank = rank;
  sequence_length = sequence_length % 256;
  card_count = card_count % 256;
}

-- `knownKind`.
abbrev pub known_kind : Kind → Bool
known_kind unknown = false
known_kind single = true
known_kind _ = true

-- `validPatternStructure`, by the kind and the two flags about the rank.
unfoldable pub valid_structure : Kind → Bool → Bool → ℕ → ℕ → ℕ → Bool
valid_structure single ordinary in_sequence rank len n = len == 1 && n == 1
valid_structure pair ordinary in_sequence rank len n = len == 1 && n == 2 && ordinary
valid_structure triple ordinary in_sequence rank len n = len == 1 && n == 3 && ordinary
valid_structure triple_with_single ordinary in_sequence rank len n = len == 1 && n == 4 && ordinary
valid_structure triple_with_pair ordinary in_sequence rank len n = len == 1 && n == 5 && ordinary
valid_structure straight ordinary in_sequence rank len n = leb 5 len && n == len && in_sequence
valid_structure consecutive_pairs ordinary in_sequence rank len n =
    leb 3 len && n == 2 * len && in_sequence
valid_structure airplane ordinary in_sequence rank len n = leb 2 len && n == 3 * len && in_sequence
valid_structure airplane_with_singles ordinary in_sequence rank len n =
    leb 2 len && n == 4 * len && in_sequence
valid_structure airplane_with_pairs ordinary in_sequence rank len n =
    leb 2 len && n == 5 * len && in_sequence
valid_structure four_with_two_singles ordinary in_sequence rank len n =
    len == 1 && n == 6 && ordinary
valid_structure four_with_two_pairs ordinary in_sequence rank len n = len == 1 && n == 8 && ordinary
valid_structure bomb ordinary in_sequence rank len n = len == 1 && n == 4 && ordinary
valid_structure rocket ordinary in_sequence rank len n =
    len == 1 && n == 2 && rank == rank_big_joker
valid_structure unknown ordinary in_sequence rank len n = false

-- `mainRank - sequenceLength + 1 >= RankThree` over the signed `int`.
unfoldable pub valid_pattern_structure : Pattern → Bool
unfolding valid_structure
valid_pattern_structure p =
    valid_structure p.kind (leb p.main_rank rank_two)
      (leb p.main_rank rank_ace && leb (p.sequence_length + rank_three) (p.main_rank + 1))
      p.main_rank p.sequence_length p.card_count

-- `validatePattern` accepts.
unfoldable pub pattern_valid : Pattern → Bool
unfolding valid_pattern_structure
pattern_valid p =
    text_eq p.version rules_version
    && known_kind p.kind
    && not (p.sequence_length == 0)
    && not (p.card_count == 0)
    && leb p.main_rank rank_big_joker
    && valid_pattern_structure p

-- The tests of `CanBeat` between two valid patterns.
unfoldable pub beats : Pattern → Pattern → Bool
unfolding kind_id
beats candidate incumbent =
    if kind_id candidate.kind == kind_id rocket
    then not (kind_id incumbent.kind == kind_id rocket)
    else if kind_id incumbent.kind == kind_id rocket
    then false
    else if kind_id candidate.kind == kind_id bomb
    then (if not (kind_id incumbent.kind == kind_id bomb)
        then true
        else ltb incumbent.main_rank candidate.main_rank)
    else if kind_id incumbent.kind == kind_id bomb
    then false
    else if not (kind_id candidate.kind == kind_id incumbent.kind)
        || not (candidate.sequence_length == incumbent.sequence_length)
        || not (candidate.card_count == incumbent.card_count)
    then false
    else ltb incumbent.main_rank candidate.main_rank

-- `CanBeat`.
unfoldable pub can_beat : Pattern → Pattern → Result Error Bool
can_beat candidate incumbent = do
  reject (not (pattern_valid candidate)) invalid_pattern_value
  reject (not (pattern_valid incumbent)) invalid_pattern_value
  ok (beats candidate incumbent)
