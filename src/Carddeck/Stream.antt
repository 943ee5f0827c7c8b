-- ===== src/Carddeck/Stream.antt =====
-- server/business/doudizhu/domain/carddeck/random.go: the stream of pseudo-random bytes, and
-- `Shuffle` of shuffle.go on top of it. HMAC with SHA-256 is the parameter `mac`, of a key and bytes.
pub mod Laws
use awesome_zero_platform.Base.{
  ℕ, zero, suc, ◌+◌, ◌-◌, ◌*◌, ◌/◌, ◌%◌, Bool, true, false, not, ◌&&◌, ◌||◌, List, [], ◌∷◌, ◌++◌,
  Option, none, some, Result, ok, err, ◌>>=◌, ◌>>◌, reject, ltb, leb, ◌==◌, if◌then◌else◌, length,
  take, drop, wrap64, replicate,
}
use awesome_zero_platform.Base.Text.{Text, codes}
use awesome_zero_platform.Carddeck.{
  Error, invalid_argument, deck_size, canonical_deck, validate_deck,
}
use awesome_zero_platform.Carddeck.Deal.{domain_bytes, text_bytes, u16_bytes}
use awesome_zero_platform.Carddeck.Seed.{all_zero, ShuffleInput, derive_seed}
use awesome_zero_platform.Carddeck.Shuffle.{shuffle_deck}

pub record Stream : Type 0 where
  pub key : Text
  pub counter : ℕ
  pub block : Text
  pub offset : ℕ

-- `NewStream`: the offset is past the block of 32 zero bytes.
unfoldable pub new_stream : Text → Result Error Stream
new_stream seed = do
  reject (all_zero seed) invalid_argument
  ok (record { key = seed; counter = 0; block = replicate 32 0; offset = 32 })

-- `writeU64`, big-endian.
abbrev pub u64_bytes : ℕ → Text
u64_bytes n =
    (n / 72057594037927936 % 256)
    ∷ (n / 281474976710656 % 256)
    ∷ (n / 1099511627776 % 256)
    ∷ (n / 4294967296 % 256)
    ∷ (n / 16777216 % 256)
    ∷ (n / 65536 % 256)
    ∷ (n / 256 % 256)
    ∷ (n % 256)
    ∷ []

-- `binary.BigEndian.Uint64`, of a list of bytes.
unfoldable pub of_bytes : ℕ → Text → ℕ
of_bytes acc [] = acc
of_bytes acc (b ∷ rest) = of_bytes (acc * 256 + b) rest

module _ (mac : Text → Text → Text) where
  -- `fill`.
  unfoldable pub fill : Stream → Stream
  fill s = record s {
    counter = wrap64 (s.counter + 1);
    block = mac s.key (
        domain_bytes (codes "fair-doudizhu/random-block/v1")
        ++ (text_bytes (codes "fair-doudizhu-hmac-counter-v1") ++ u64_bytes s.counter));
    offset = 0;
  }

  abbrev pub filled : Stream → Stream
  filled s = if leb (length s.block) s.offset then fill s else s

  -- The loop of `Read` for the number of bytes that are still wanted, with fuel for its rounds;
  -- `none` means that the fuel ran out.
  unfoldable pub read_loop : ℕ → ℕ → Stream → Option (Text × Stream)
  unfolding fill
  read_loop zero zero s = some ([], s)
  read_loop zero (suc wanted) s = none
  read_loop (suc fuel) zero s = some ([], s)
  read_loop (suc fuel) (suc wanted) s =
      let t = filled s in
      let chunk = take (suc wanted) (drop t.offset t.block) in
      elim (read_loop fuel (suc wanted - length chunk)
        (record t { offset = t.offset + length chunk })) [
          | none ↦ none
          | some (rest, u) ↦ some (chunk ++ rest, u)
        ]

  -- `Read`: a round writes at least one byte, so the bytes wanted are fuel enough.
  unfoldable pub read : ℕ → Stream → Option (Text × Stream)
  unfolding read_loop
  read wanted s = read_loop wanted wanted s

  abbrev word_of : Option (Text × Stream) → Stream → ℕ × Stream
  word_of none s = (0, s)
  word_of (some (bytes, t)) s = (of_bytes 0 bytes, t)

  -- `Uint64`.
  unfoldable pub next_word : Stream → ℕ × Stream
  unfolding read of_bytes
  next_word s = word_of (read 8 s) s
