-- ===== src/Carddeck/Random/Ends.antt =====
-- server/business/doudizhu/domain/carddeck/random.go: the loop of `Uniform` ends at a large word.
use awesome_zero_platform.Base.{
  ℕ, zero, suc, ◌%◌, ◌≤◌, ◌<◌, ◌≡◌, inl, inr, some, arith, leb, Bool-cases,
}
use awesome_zero_platform.Carddeck.Random.{threshold, threshold-lt, uniform_loop, large_words}

module _ {S : Type 0} (draw : S → ℕ × S) where
  -- For a positive bound that is at most a limit: if more than `left` of the next `n` words are at
  -- least the limit and the fuel is at least `n`, the loop returns a number, and at least `left` of
  -- what remains of those words are at least the limit.
  pub uniform_loop_total :
      (n fuel bound limit left : ℕ) (s : S)
      → 0 < bound
      → bound ≤ limit
      → n ≤ fuel
      → left < large_words draw n limit s
      → (k : ℕ) × (t : S) × (m : ℕ) × (uniform_loop draw fuel bound s ≡ some (k, t))
        × (m ≤ n)
        × (left ≤ large_words draw m limit t)
  unfolding uniform_loop large_words
  uniform_loop_total zero fuel bound limit left s b l f h = absurd (omega arith)
  uniform_loop_total (suc n) zero bound limit left s b l f h = absurd (omega arith)
  uniform_loop_total (suc n) (suc fuel) bound limit left s b l f h =
      elim (Bool-cases (leb (threshold bound) (draw s).0)) [
        | inl hit ↦ ((draw s).0 % bound, (draw s).1, n, rw hit, omega arith, ground (arith, h))
        | inr miss ↦
            let (k, t, m, e, le, rest) =
              uniform_loop_total n fuel bound limit left (draw s).1 b l (omega arith)
                (ground (arith, h, threshold-lt bound b)) in
            (k, t, m, rw (miss, e), omega (arith, le), rest)
      ]
