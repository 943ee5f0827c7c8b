-- ===== src/Lib.antt =====
-- The rules of a fair game of Doudizhu, from server/business/doudizhu/domain and
-- server/business/gamecore of the repository.
--
-- The program. A room (room.go) seats three accounts and starts a hand. A hand (hand_types.go,
-- hand_lifecycle.go, hand_fairness.go) collects a commitment and a contribution from each seat and the
-- value of a public beacon that was fixed beforehand, and goes through the phases of the game. From the
-- seeds and the beacon the randomized setup (randomizedsetup/) derives a stream that shuffles the deck
-- (carddeck/), which is dealt into three hands and three landlord cards, and encodes the result as an
-- artifact of gamecore. A live hand (livehand/) starts from that artifact: an auction (bidding/) finds
-- the landlord, the players lay patterns of cards in turn (playing/), and the settlement (settlement/)
-- computes the points from the history of the play.
--
-- The files.
-- - Base and its children: the shared names, Go's pair of a value and an error (Result), texts as lists
--   of bytes, arrays of three that a seat indexes (Trio), signed integers.
-- - Domain: errors.go and ids.go.
-- - Bidding: bidding/bidding.go (State, Submit, Snapshot), with New and DeriveFirstBidder in
--   Bidding.First. Bidding.Invariant and Bidding.Outcome hold the proofs, with the abstract auction
--   best_from and the fold run of Submit over a list of bids.
-- - Carddeck, with Deck, Codes, Random, Shuffle, Deal, Seed, Stream and Transcript: carddeck/card.go,
--   random.go, shuffle.go, deal.go, transcript.go and encoding.go, with transcript_decode.go in
--   Transcript.Decode. The modules named Laws, Counts, Fair, Ends and Parsed hold
--   proofs.
-- - Pattern, with Counts and Analyze: playing/pattern.go. Pattern.Counted, Valid and Order hold proofs.
-- - Playing: playing/state.go, with proofs in Playing.Invariant and Playing.Laws.
-- - Settlement: settlement/settlement.go, with proofs in Settlement.Counts, Laws, Played and Total.
-- - Room, with Restore: room.go, event.go, and RestoreRoom of restore.go. Room.Reach has the commands as
--   data and the rooms that they reach.
-- - Hand, with Phases, Fairness and Restore: hand_types.go, hand_lifecycle.go, hand_fairness.go,
--   hand_validation.go, fairness.go and RestoreHand of restore.go. Hand.Commands has the commands as
--   data and the relation of phases, Hand.Invariant the invariant of the protocol, Hand.Reach the hands
--   that the commands reach.
-- - Gamecore, with Registry, Final and Random: gamecore/errors.go, identity.go, encoding.go,
--   fairness.go, module.go, random.go and the final records of runtime.go, with proofs in
--   Gamecore.Permutes, Registry.Laws and Registry.Built.
-- - RandomizedSetup, with Codec and Generate: randomizedsetup/module.go, with proofs in RoundTrip.
-- - LiveHand, with Decode, Cards, Apply, View and Start: livehand/game.go. Conserved and Turns follow the
--   cards through a turn, Invariant and Started hold the invariant of the game, Finish shows that turns
--   and aborts are carried out, Reach has the games that New, Apply and Abort lead to.
-- - Scenarios: concrete runs of every part.
--
-- How the code is read. A method of a pointer is a function from the state to a Result of the new state
-- with the events; where Go returns a snapshot, the model returns the state that it is taken from.
-- Apply of a live hand returns the game also beside an error, since applyBid writes before its last
-- check. An error keeps the sentinel that errors.Is finds and drops the text. A string type with
-- constants is a data type with a constructor for every other string; of the phases of a live hand only
-- those that the code assigns. Numbers are natural numbers; a uint64 counter wraps (wrap64), and a
-- comparison or a subtraction is written as the code does it. A time is the number of seconds since Go's
-- zero time. SHA-256 (sha256), HMAC with it (mac), the test for valid UTF-8 (valid_utf8) and the decoders
-- of encoding/json (the record Json) are parameters. Encoding to JSON, base64 and hex is left out: a
-- payload is the value that is encoded, and the encoding does not fail. An array is a list; a hypothesis
-- gives it its size where that matters. Nil receivers are not modelled, and copies of a state (Clone,
-- Fork, CloneCandidate) are the state.
--
-- Bounds and fuel. The loop of Uniform has no bound in the code: it runs here on fuel, over any source
-- of words. A word that is at least the bound is never rejected, since the threshold of rejection is
-- below the bound, so as much fuel as words are looked at is enough when one of them is that large. What draws words (Shuffle, BuildTranscript, GenerateSetup, New of an
-- auction and of a live hand) takes that fuel and has an error of its own for its end. The loop of
-- Stream.Read runs on as much fuel as bytes are wanted, which is enough. All other loops are recursion
-- on their data.
--
-- Not modelled: the replay of evidence (livehand/evidence.go), the directory of live games of gamecore
-- (runtime.go), and the layers around the domain (application, infrastructure, platform, clients),
-- which are planned or are input and output over libraries.
pub mod Base
pub mod Bidding
pub mod Carddeck
pub mod Pattern
pub mod Domain
pub mod Room
pub mod Hand
pub mod Playing
pub mod Settlement
pub mod Gamecore
pub mod RandomizedSetup
pub mod LiveHand
pub mod Scenarios
