-- ===== src/Hand/Phases.antt =====
-- server/business/doudizhu/domain/hand_lifecycle.go: the phases of a hand.
use awesome_zero_platform.Base.{
  ℕ, Bool, not, ◌||◌, List, [], ◌∷◌, Result, ok, err, ◌>>◌, reject, ltb, if◌then◌else◌, length,
}
use awesome_zero_platform.Base.Text.{Text, text_eq, is_empty, trim_space}
use awesome_zero_platform.Domain.{
  Error, invalid_argument, wrong_phase, hand_terminal, not_seated, check_version,
  validate_identifier,
}
use awesome_zero_platform.Hand.{
  HandPhase, dealing, bidding, playing, settling, completed, cancelled, aborted, expired, phase_eq,
  terminal, Hand, Event, phase_changed, hand_terminated, record_event,
}

-- `prepareMutation`.
unfoldable pub prepare_mutation : Hand → ℕ → HandPhase → Result Error (Unit {0})
prepare_mutation h expected required = do
  check_version h.version expected
  reject (terminal h.phase) hand_terminal
  reject (not (phase_eq h.phase required)) wrong_phase

-- `changePhase`.
unfoldable pub change_phase : Hand → HandPhase → Hand × Event
change_phase h to = record_event (record h { phase = to }) (phase_changed h.phase to)

abbrev pub one_event : Hand × Event → Hand × List Event
one_event (h, e) = (h, e ∷ [])

-- `transition`.
unfoldable pub transition : Hand → ℕ → HandPhase → HandPhase → Result Error (Hand × List Event)
transition h expected from to = do
  prepare_mutation h expected from
  ok (one_event (change_phase h to))

unfoldable pub mark_dealt : Hand → ℕ → Result Error (Hand × List Event)
mark_dealt h expected = transition h expected dealing bidding

unfoldable pub start_playing : Hand → ℕ → Result Error (Hand × List Event)
start_playing h expected = transition h expected bidding playing

unfoldable pub start_settling : Hand → ℕ → Result Error (Hand × List Event)
start_settling h expected = transition h expected playing settling

unfoldable pub complete : Hand → ℕ → Result Error (Hand × List Event)
complete h expected = transition h expected settling completed

abbrev pub bad_text : ℕ → Text → Bool
bad_text limit text = is_empty text || ltb limit (length text)

-- The writes of `terminate`: the reason and the phase, with two events.
unfoldable pub write_termination : Hand → HandPhase → Text → Hand × List Event
write_termination h to reason =
    let (h', e) =
      record_event (record h { termination_reason = reason; phase = to })
        (hand_terminated to reason) in
    let (h'', e') = record_event h' (phase_changed h.phase to) in (h'', e ∷ e' ∷ [])

-- `terminate`.
unfoldable pub terminate : Hand → ℕ → HandPhase → Text → Result Error (Hand × List Event)
terminate h expected to reason = do
  check_version h.version expected
  reject (terminal h.phase) hand_terminal
  reject (bad_text 256 (trim_space reason)) invalid_argument
  ok (write_termination h to (trim_space reason))

-- `Cancel`, which the phases of the game refuse.
unfoldable pub cancel : Hand → Text → ℕ → Result Error (Hand × List Event)
cancel h reason expected = do
  reject
      (phase_eq h.phase dealing
        || phase_eq h.phase bidding
        || phase_eq h.phase playing
        || phase_eq h.phase settling)
      wrong_phase
  terminate h expected cancelled reason

unfoldable pub abort : Hand → Text → ℕ → Result Error (Hand × List Event)
abort h reason expected = terminate h expected aborted reason

unfoldable pub expire : Hand → Text → ℕ → Result Error (Hand × List Event)
expire h reason expected = terminate h expected expired reason

-- `resolveSeat`.
unfoldable pub resolve_seat : Hand → Text → Result Error ℕ
resolve_seat h actor = do
  validate_identifier actor
  if text_eq h.seats.first.account_id actor
      then ok h.seats.first.seat
      else if text_eq h.seats.second.account_id actor
      then ok h.seats.second.seat
      else if text_eq h.seats.third.account_id actor
      then ok h.seats.third.seat
      else err not_seated
