-- ===== src/Carddeck/Shuffle.antt =====
-- server/business/doudizhu/domain/carddeck/shuffle.go: the Fisher-Yates shuffle.
pub mod Laws
use awesome_zero_platform.Base.{
  ℕ, zero, suc, ◌+◌, List, Option, none, some, Result, ok, err, ◌>>=◌, ◌>>◌, get_or, set,
}
use awesome_zero_platform.Carddeck.{Error, deck_size, validate_deck}
use awesome_zero_platform.Carddeck.Random.{uniform}

-- `deck[i], deck[j] = deck[j], deck[i]`.
unfoldable pub swap : List ℕ → ℕ → ℕ → List ℕ
swap d i j = set (set d i (get_or d j 0)) j (get_or d i 0)

module _ {S : Type 0} (draw : S → ℕ × S) (fuel : ℕ) where
  -- The loop, from `index` down to 1; `none` means that a draw ran out of fuel.
  unfoldable pub shuffle_from : ℕ → List ℕ → S → Result Error (Option (List ℕ × S))
  shuffle_from zero d s = ok (some (d, s))
  shuffle_from (suc i) d s =
      uniform draw fuel (suc i + 1) s
      >>= elim [ none ↦ ok none | some (selected, t) ↦ shuffle_from i (swap d (suc i) selected) t ]

  -- `ShuffleDeck`, for a source that is not nil.
  unfoldable pub shuffle_deck : List ℕ → S → Result Error (Option (List ℕ × S))
  unfolding shuffle_from
  shuffle_deck d s = do validate_deck d; shuffle_from 53 d s
