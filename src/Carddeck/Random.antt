-- ===== src/Carddeck/Random.antt =====
-- server/business/doudizhu/domain/carddeck/random.go: `Uniform`, rejection sampling over a source of
-- 64-bit words. A source is a state and the function that draws the next word from it.
pub mod Fair
pub mod Ends
use native.Mathlib.Nat.{mod-lt}
use awesome_zero_platform.Base.{
  ℕ, zero, suc, ◌+◌, ◌-◌, ◌*◌, ◌%◌, ◌/◌, ◌≤◌, ◌<◌, ◌≡◌, inl, inr, Bool, true, false, ◌||◌, Option,
  none, some, Result, ok, err, arith, leb, ◌==◌, if◌then◌else◌, Bool-cases,
}
use awesome_zero_platform.Carddeck.{Error, invalid_argument}

abbrev pub word_mod : ℕ
word_mod = 18446744073709551616

-- `(uint64(0) - bound) % bound`.
unfoldable pub threshold : ℕ → ℕ
threshold bound = ((0 + word_mod - bound) % word_mod) % bound

module _ {S : Type 0} (draw : S → ℕ × S) where
  -- The `for` loop, with fuel for its rounds; `none` means that the fuel ran out.
  unfoldable pub uniform_loop : ℕ → ℕ → S → Option (ℕ × S)
  uniform_loop zero bound s = none
  uniform_loop (suc fuel) bound s =
      let later = uniform_loop fuel bound (draw s).1 in
      if leb (threshold bound) (draw s).0 then some ((draw s).0 % bound, (draw s).1) else later

  -- `Uniform`, for a source that is not nil.
  unfoldable pub uniform : ℕ → ℕ → S → Result Error (Option (ℕ × S))
  unfolding uniform_loop
  uniform fuel bound s = if bound == 0 then err invalid_argument else ok (uniform_loop fuel bound s)

  -- A drawn number is below the bound.
  pub uniform_loop-lt :
      (fuel bound : ℕ) (s : S) (n : ℕ) (t : S)
      → 0 < bound
      → uniform_loop fuel bound s ≡ some (n, t)
      → n < bound
  unfolding uniform_loop
  uniform_loop-lt zero bound s n t b h = cc
  uniform_loop-lt (suc fuel) bound s n t b h =
      ground (arith, uniform_loop-lt fuel bound (draw s).1 n t b, mod-lt (draw s).0 b)

  -- How many of the next `n` words are at least `limit`.
  unfoldable pub large_words : ℕ → ℕ → S → ℕ
  large_words zero limit s = 0
  large_words (suc n) limit s =
      let (word, t) = draw s in (if leb limit word then 1 else 0) + large_words n limit t

pub threshold-lt : (bound : ℕ) → 0 < bound → threshold bound < bound
unfolding threshold
threshold-lt bound b = mod-lt _ b

module _ {S : Type 0} (draw : S → ℕ × S) where
  pub uniform-pos :
      (fuel bound : ℕ) (s : S)
      → 0 < bound
      → uniform draw fuel bound s ≡ ok (uniform_loop draw fuel bound s)
  unfolding uniform
  uniform-pos fuel bound s b = ground arith
