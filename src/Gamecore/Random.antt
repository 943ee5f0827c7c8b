-- ===== src/Gamecore/Random.antt =====
-- server/business/gamecore/random.go: the stream of random words, the uniform draw and the random
-- permutation. HMAC with SHA-256 is the parameter `mac`, of a key and bytes.
use awesome_zero_platform.Base.{
  ℕ, zero, suc, ◌+◌, ◌-◌, ◌||◌, List, [], ◌++◌, Option, none, some, Result, ok, err, ◌>>=◌, ◌>>◌,
  reject, ltb, leb, ◌==◌, if◌then◌else◌, length, take, drop, wrap64, replicate,
}
use awesome_zero_platform.Base.Text.{Text, codes}
use awesome_zero_platform.Carddeck.Deal.{domain_bytes, text_bytes, tabulate}
use awesome_zero_platform.Carddeck.Seed.{all_zero}
use awesome_zero_platform.Carddeck.Stream.{Stream, u64_bytes, of_bytes}
use awesome_zero_platform.Carddeck.Random.{uniform_loop}
use awesome_zero_platform.Carddeck.Shuffle.{swap}
use awesome_zero_platform.Gamecore.{Error, invalid_argument}

-- `NewStream`; the struct has the fields of carddeck's.
unfoldable pub new_stream : Text → Result Error Stream
new_stream seed = do
  reject (all_zero seed) invalid_argument
  ok (record { key = seed; counter = 0; block = replicate 32 0; offset = 32 })

module _ (mac : Text → Text → Text) where
  -- `fill`.
  unfoldable pub fill : Stream → Stream
  fill s = record s {
    counter = wrap64 (s.counter + 1);
    block = mac s.key (
        domain_bytes (codes "gamecore/random-block/v1")
        ++ (text_bytes (codes "gamecore-hmac-counter-v1") ++ u64_bytes s.counter));
    offset = 0;
  }

  abbrev filled : Stream → Stream
  filled s = if leb (length s.block) s.offset then fill s else s

  -- The loop of `Read` for the number of bytes that are still wanted, with fuel for its rounds.
  unfoldable pub read_loop : ℕ → ℕ → Stream → Option (Text × Stream)
  unfolding fill
  read_loop zero zero s = some ([], s)
  read_loop zero (suc wanted) s = none
  read_loop (suc fuel) zero s = some ([], s)
  read_loop (suc fuel) (suc wanted) s =
      let t = filled s in
      let chunk = take (suc wanted) (drop t.offset t.block) in
      let moved : Stream = record t { offset = t.offset + length chunk } in
      elim (read_loop fuel (suc wanted - length chunk) moved) [
        | none ↦ none
        | some (rest, u) ↦ some (chunk ++ rest, u)
      ]

  abbrev word_of : Option (Text × Stream) → Stream → ℕ × Stream
  word_of none s = (0, s)
  word_of (some (bytes, t)) s = (of_bytes 0 bytes, t)

  -- `Uint64`, through `Read` of eight bytes.
  unfoldable pub next_word : Stream → ℕ × Stream
  unfolding read_loop of_bytes
  next_word s = word_of (read_loop 8 8 s) s

abbrev pub max_permutation_items : ℕ
max_permutation_items = 1000000

module _ {S : Type 0} (draw : S → ℕ × S) (fuel : ℕ) where
  -- `Uniform`, for a source that is not nil; its loop is the one of carddeck.
  unfoldable pub uniform : ℕ → S → Result Error (Option (ℕ × S))
  uniform bound s = if bound == 0 then err invalid_argument else ok (uniform_loop draw fuel bound s)

  -- The second loop of `Permutation`, from `index` down to 1.
  unfoldable pub permute_from : ℕ → List ℕ → S → Result Error (Option (List ℕ × S))
  unfolding uniform
  permute_from zero items s = ok (some (items, s))
  permute_from (suc index) items s = uniform (suc index + 1) s >>= elim [
    | none ↦ ok none
    | some (selected, t) ↦ permute_from index (swap items (suc index) selected) t
  ]

  -- `Permutation`, for a source that is not nil.
  unfoldable pub permutation : ℕ → S → Result Error (Option (List ℕ × S))
  unfolding permute_from
  permutation count s = do
    reject (ltb count 1 || ltb max_permutation_items count) invalid_argument
    permute_from (count - 1) (tabulate 0 count (λ i. i)) s
