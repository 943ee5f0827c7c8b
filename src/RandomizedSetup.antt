-- ===== src/RandomizedSetup.antt =====
-- server/business/doudizhu/domain/randomizedsetup/module.go: the setup of a hand.
pub mod Codec
pub mod Generate
pub mod RoundTrip
use awesome_zero_platform.Base.{ℕ, List}
use awesome_zero_platform.Base.Text.{Text}
use awesome_zero_platform.Base.Trio.{Trio}
use awesome_zero_platform.Carddeck
use awesome_zero_platform.Gamecore

pub record Setup : Type 0 where
  pub shuffle_seed : Text
  pub deck : List ℕ
  pub deck_digest : Text
  pub hands : Trio (List ℕ)
  pub landlord_cards : List ℕ
  pub deal_digest : Text

-- The errors of gamecore that the module returns, those of carddeck that it passes on, and the mark
-- that a draw has used up its fuel.
pub data Error : Type 0 where
  invalid_argument verification_failed unsupported_version : Error
  of_core : Gamecore.Error → Error
  of_cards : Carddeck.Error → Error
  out_of_fuel : Error
