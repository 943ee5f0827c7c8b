-- ===== src/Bidding/First.antt =====
-- server/business/doudizhu/domain/bidding/bidding.go: `New`, and the first bidder that the digest of
-- the deal decides.
use awesome_zero_platform.Base.{
  ℕ, ◌+◌, ◌%◌, ◌≤◌, ◌≡◌, refl, ◌∙◌, ap, false, ◌++◌, Option, none, some, Result, ok, err, ◌>>=◌,
  ◌>>◌, reject, arith, bind_steps, ok-injective,
}
use awesome_zero_platform.Base.Text.{Text, codes}
use awesome_zero_platform.Carddeck.Deal.{domain_bytes}
use awesome_zero_platform.Carddeck.Random.{uniform_loop, uniform_loop-lt}
use awesome_zero_platform.Carddeck.Seed.{all_zero}
use awesome_zero_platform.Carddeck.Stream.{Stream}
use awesome_zero_platform.Gamecore
use awesome_zero_platform.Gamecore.Random.{new_stream, next_word, uniform}
use awesome_zero_platform.Bidding.{State, Error, invalid_deal_digest, new_state}
use awesome_zero_platform.Bidding.Invariant.{Inv, new_state-Inv}

-- An error of this package or of gamecore, or the mark that a draw has used up its fuel.
pub data Fault : Type 0 where
  bidding_error : Error → Fault
  core_error : Gamecore.Error → Fault
  out_of_fuel : Fault

abbrev from_core : {A : Type 0} → Result Gamecore.Error A → Result Fault A
from_core (ok a) = ok a
from_core (err e) = err (core_error e)

abbrev drawn : {A : Type 0} → Option A → Result Fault A
drawn none = err out_of_fuel
drawn (some a) = ok a

drawn-eq_ok : {A : Type 0} (o : Option A) (a : A) → drawn o ≡ ok a → o ≡ some a
drawn-eq_ok none a h = cc
drawn-eq_ok (some b) a h = ap some (ok-injective h)

module _ (sha256 : Text → Text) (mac : Text → Text → Text) (fuel : ℕ) where
  -- `DeriveFirstBidder`.
  unfoldable pub derive_first_bidder : Text → Result Fault ℕ
  derive_first_bidder digest = do
    reject (all_zero digest) (bidding_error invalid_deal_digest)
    stream ←
        from_core
          (new_stream (sha256 (domain_bytes (codes "doudizhu/bidding-first-seat/v1") ++ digest)))
    draw ← from_core (uniform (next_word mac) fuel 3 stream)
    (value, rest) ← drawn draw
    ok ((value + 1) % 256)

  -- `New`.
  unfoldable pub new : Text → Result Fault State
  unfolding derive_first_bidder
  new digest = do first ← derive_first_bidder digest; ok (new_state first)

  uniform_drawn :
      (s : Stream) (draw : Option (ℕ × Stream))
      → from_core (uniform (next_word mac) fuel 3 s) ≡ ok draw
      → uniform_loop (next_word mac) fuel 3 s ≡ draw
  unfolding uniform
  uniform_drawn s draw h = ok-injective h

  derive_first_bidder-seated :
      (digest : Text) (first : ℕ)
      → derive_first_bidder digest ≡ ok first
      → (1 ≤ first) × (first ≤ 3)
  unfolding derive_first_bidder
  derive_first_bidder-seated digest first h =
      let (_, _, h1) =
        bind_steps (reject (all_zero digest) (bidding_error invalid_deal_digest)) _ first h in
      let (stream, _, h2) = bind_steps (from_core (new_stream _)) _ first h1 in
      let (draw, u, h3) =
        bind_steps (from_core (uniform (next_word mac) fuel 3 stream)) _ first h2 in
      let (value, e, h4) = bind_steps (drawn draw) _ first h3 in
      let fits =
        uniform_loop-lt (next_word mac) fuel 3 stream value.0 value.1 (omega arith)
          (uniform_drawn stream draw u ∙ drawn-eq_ok draw value e) in
      omega (arith, ok-injective h4)

  -- An auction that is newly made for the digest of a deal keeps the invariant of the auction, and
  -- nobody has bid.
  pub new-Inv : (digest : Text) (s : State) → new digest ≡ ok s → Inv s × (s.complete ≡ false)
  unfolding new
  new-Inv digest s h =
      let (first, e, h1) = bind_steps (derive_first_bidder digest) _ s h in
      let (lo, hi) = derive_first_bidder-seated digest first e in
      rw (← ok-injective h1) (new_state-Inv first lo hi, unfold new_state in refl)
