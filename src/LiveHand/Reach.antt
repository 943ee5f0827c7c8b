-- ===== src/LiveHand/Reach.antt =====
-- server/business/doudizhu/domain/livehand/game.go: the games that `New`, `Apply` and `Abort` lead to.
use awesome_zero_platform.Base.{ℕ, ◌≡◌, Bool, ok}
use awesome_zero_platform.Base.Text.{Text}
use awesome_zero_platform.Carddeck.Deck.{copies}
use awesome_zero_platform.Gamecore.{Material, Artifact}
use awesome_zero_platform.Hand.Restore.{HandSnapshot}
use awesome_zero_platform.LiveHand.{Game, Command, TerminalPayload}
use awesome_zero_platform.LiveHand.Decode.{Json}
use awesome_zero_platform.LiveHand.Apply.{apply, abort}
use awesome_zero_platform.LiveHand.Conserved.{in_game}
use awesome_zero_platform.LiveHand.Finish.{abort-Inv}
use awesome_zero_platform.LiveHand.Invariant.{Inv, apply_keeps}
use awesome_zero_platform.LiveHand.Start.{new}
use awesome_zero_platform.LiveHand.Started.{new-Inv}

module _ (sha256 : Text → Text) (mac : Text → Text → Text) (valid_utf8 : Text → Bool) (fuel : ℕ)
    (json : Json) where
  -- A game that `New` made, and any number of commands and at last perhaps an abort led to. A command
  -- may have been refused.
  pub data Reachable : Game → Type 0 where
    made :
        (s : HandSnapshot) (m : Material) (a : Artifact) (g : Game)
        → new sha256 mac valid_utf8 fuel s m a ≡ ok g
        → Reachable g
    applied : (g : Game) (c : Command) → Reachable g → Reachable (apply sha256 json g c).0
    stopped :
        (g h : Game) (reason : Text) (p : TerminalPayload)
        → Reachable g
        → abort sha256 g reason ≡ ok (h, p)
        → Reachable h

  -- Every game that is reached keeps the invariant.
  pub Reachable-Inv : (g : Game) → Reachable g → Inv g
  Reachable-Inv g (made s m a f e) = (new-Inv sha256 mac valid_utf8 fuel s m a f e).0
  Reachable-Inv g (applied f c r) = apply_keeps sha256 json f c (Reachable-Inv f r)
  Reachable-Inv g (stopped f h reason p r e) = abort-Inv sha256 f h reason p (Reachable-Inv f r) e

  -- In every live hand that is reached from a new one by commands, accepted or refused, and an
  -- abort, every card of the deck stands exactly once: in a hand, on the table, or face down
  -- before a landlord takes it.
  pub Reachable-cards : (g : Game) (x : ℕ) → Reachable g → in_game g x ≡ copies x
  Reachable-cards g x r = let v = Reachable-Inv g r in v.cards x
