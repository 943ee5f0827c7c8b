-- ===== src/Carddeck/Stream/Laws.antt =====
-- A read never runs out of fuel, and gives as many bytes as are wanted.
use awesome_zero_platform.Base.{
  ℕ, zero, suc, ◌+◌, ◌-◌, ◌≤◌, ◌<◌, ◌≡◌, refl, inl, inr, [], ◌∷◌, ◌++◌, some, leb, length, take,
  drop, length-append, arith, Bool-cases,
}
use awesome_zero_platform.Base.Text.{Text}
use awesome_zero_platform.Carddeck.Stream.{Stream, fill, filled, read_loop, read}

length-drop : (n : ℕ) (xs : Text) → length (drop n xs) ≡ length xs - n
length-drop zero xs = omega arith
length-drop (suc n) [] = omega arith
length-drop (suc n) (x ∷ xs) = omega (arith, length-drop n xs)

length-take-le : (n : ℕ) (xs : Text) → length (take n xs) ≤ n
length-take-le zero xs = omega arith
length-take-le (suc n) [] = omega arith
length-take-le (suc n) (x ∷ xs) = omega (arith, length-take-le n xs)

length-take_pos : (n : ℕ) (xs : Text) → 0 < length xs → 0 < length (take (suc n) xs)
length-take_pos n [] h = elim h [ ]
length-take_pos n (x ∷ xs) h = omega arith

module _ (mac : Text → Text → Text)
    (is_mac : (key bytes : Text) → length (mac key bytes) ≡ 32) where
  abbrev IsFull : Stream → Type 0
  IsFull s = length s.block ≡ 32

  filled-IsFull : (s : Stream) → IsFull s → IsFull (filled mac s) × ((filled mac s).offset < 32)
  unfolding fill
  filled-IsFull s f = elim (Bool-cases (leb (length s.block) s.offset)) [
    | inl used ↦ rw used (is_mac _ _, omega arith)
    | inr left ↦ rw left (f, ground (arith, f, left))
  ]

  read_loop_total :
      (fuel wanted : ℕ) (s : Stream)
      → IsFull s
      → wanted ≤ fuel
      → (bytes : Text) × (t : Stream) × (read_loop mac fuel wanted s ≡ some (bytes, t))
        × (length bytes ≡ wanted)
        × IsFull t
  unfolding read_loop
  read_loop_total zero zero s f h = ([], s, refl, refl, f)
  read_loop_total zero (suc wanted) s f h = absurd (omega arith)
  read_loop_total (suc fuel) zero s f h = ([], s, refl, refl, f)
  read_loop_total (suc fuel) (suc wanted) s f h =
      let t : Stream = filled mac s in
      let (full, room) = filled-IsFull s f in
      let chunk : Text = take (suc wanted) (drop t.offset t.block) in
      let some_left : 0 < length chunk =
        length-take_pos wanted (drop t.offset t.block)
          (omega (arith, length-drop t.offset t.block, full, room)) in
      let within : length chunk ≤ suc wanted =
        length-take-le (suc wanted) (drop t.offset t.block) in
      let (rest, u, e, n, f') =
        read_loop_total fuel (suc wanted - length chunk)
          (record t { offset = t.offset + length chunk }) full (omega (arith, h, some_left)) in
      (chunk ++ rest, u, rw e, omega (arith, length-append chunk rest, n, within), f')

  -- For a message authentication code of 32 bytes and a stream whose block has 32 bytes: a read of
  -- any number of bytes ends within as many rounds, gives exactly that many bytes, and leaves a
  -- block of 32 bytes.
  pub read_total :
      (wanted : ℕ) (s : Stream)
      → length s.block ≡ 32
      → (bytes : Text) × (t : Stream) × (read mac wanted s ≡ some (bytes, t))
        × (length bytes ≡ wanted)
        × (length t.block ≡ 32)
  unfolding read
  read_total wanted s f = read_loop_total wanted wanted s f (omega arith)
