-- ===== src/Carddeck/Random/Fair.antt =====
-- server/business/doudizhu/domain/carddeck/random.go: every answer of `Uniform` comes from equally
-- many words.
use native.Mathlib.Nat.{div-add-mod, mod-eq_of_lt, add-mod_right}
use awesome_zero_platform.Base.{
  ℕ, zero, suc, ◌+◌, ◌-◌, ◌*◌, ◌%◌, ◌/◌, ◌≤◌, ◌<◌, ◌≡◌, refl, ap, subst, ◌∙◌, Bool, false, ◌&&◌,
  Option, none, some, Result, ok, err, arith, leb, ltb, ◌==◌, if◌then◌else◌,
}
use awesome_zero_platform.Carddeck.{Error}
use awesome_zero_platform.Carddeck.Random.{word_mod, threshold, uniform, uniform_loop}

-- How many of the `n` numbers from `a` on pass a test.
unfoldable pub count_from : (ℕ → Bool) → ℕ → ℕ → ℕ
count_from test a zero = 0
count_from test a (suc n) = count_from test a n + (if test (a + n) then 1 else 0)

-- The source whose next word is its state.
abbrev pub one_word : ℕ → ℕ × ℕ
one_word w = (w, w)

abbrev pub is_answer : ℕ → Result Error (Option (ℕ × ℕ)) → Bool
is_answer n (ok (some (m, t))) = m == n
is_answer n (ok none) = false
is_answer n (err e) = false

-- Whether a word makes the first round of `Uniform` return `n`.
unfoldable pub answers : ℕ → ℕ → ℕ → Bool
answers bound n w = is_answer n (uniform one_word 1 bound w)

answers_iff :
    (bound n w : ℕ) → 0 < bound → answers bound n w ≡ (leb (threshold bound) w && w % bound == n)
unfolding answers uniform uniform_loop
answers_iff bound n w b = ground arith

count_from-zero : (test : ℕ → Bool) (a : ℕ) → count_from test a 0 ≡ 0
unfolding count_from
count_from-zero test a = refl

count_from-last :
    (test : ℕ → Bool) (a n : ℕ)
    → count_from test a (suc n) ≡ count_from test a n + (if test (a + n) then 1 else 0)
unfolding count_from
count_from-last test a n = refl

count_from-add :
    (test : ℕ → Bool) (a n m : ℕ)
    → count_from test a (n + m) ≡ count_from test a n + count_from test (a + n) m
count_from-add test a n zero =
    let e : n + 0 ≡ n = omega arith in
    omega (arith, ap (count_from test a) e, count_from-zero test (a + n))
count_from-add test a n (suc m) =
    let e : a + (n + m) ≡ a + n + m = omega arith in
    let longer : n + suc m ≡ suc (n + m) = omega arith in
    ap (count_from test a) longer
    ∙ grind (
      arith,
      count_from-last test a (n + m),
      count_from-last test (a + n) m,
      count_from-add test a n m,
      ap test e,
    )

-- Tests that agree on the range count the same.
count_from-agree :
    (f g : ℕ → Bool) (a n : ℕ)
    → ((i : ℕ) → i < n → f (a + i) ≡ g (a + i))
    → count_from f a n ≡ count_from g a n
unfolding count_from
count_from-agree f g a zero h = refl
count_from-agree f g a (suc n) h =
    let rest = count_from-agree f g a n (λ i l. h i (omega arith)) in
    let here = h n (omega arith) in ground (arith, rest, here)

count_from-none :
    (f : ℕ → Bool) (a n : ℕ) → ((i : ℕ) → i < n → f (a + i) ≡ false) → count_from f a n ≡ 0
unfolding count_from
count_from-none f a zero h = refl
count_from-none f a (suc n) h =
    let rest = count_from-none f a n (λ i l. h i (omega arith)) in
    let here = h n (omega arith) in ground (arith, rest, here)

count_from-split :
    (test : ℕ → Bool) (a n : ℕ)
    → count_from test a (suc n) ≡ (if test a then 1 else 0) + count_from test (suc a) n
unfolding count_from
count_from-split test a zero = let e : a + 0 ≡ a = omega arith in ground (arith, ap test e)
count_from-split test a (suc n) =
    let e : a + suc n ≡ suc a + n = omega arith in
    ground (arith, count_from-split test a n, ap test e)

-- Whether a number leaves the rest `n`.
abbrev leaves : ℕ → ℕ → ℕ → Bool
leaves bound n w = w % bound == n

count_below :
    (bound n m : ℕ) → m ≤ bound → count_from (leaves bound n) 0 m ≡ (if ltb n m then 1 else 0)
unfolding count_from
count_below bound n zero h = ground arith
count_below bound n (suc m) h =
    let small : (0 + m) % bound ≡ m =
      ap (λ x. x % bound) (omega arith) ∙ mod-eq_of_lt (omega arith) in
    ground (arith, small, count_below bound n m)

-- Of as many numbers in a row as the bound, one leaves a given rest.
one_leaves : (bound n a : ℕ) → n < bound → count_from (leaves bound n) a bound ≡ 1
one_leaves bound n zero l = let below = count_below bound n bound in ground (arith, below)
one_leaves bound n (suc a) l =
    let before = count_from-split (leaves bound n) a bound in
    let same : (a + bound) % bound ≡ a % bound = add-mod_right a bound in
    let last = one_leaves bound n a l in
    ground (arith, before, last, same, count_from-last (leaves bound n) a bound)

-- In as many blocks, so many numbers leave a given rest.
blocks_leave : (bound n a k : ℕ) → n < bound → count_from (leaves bound n) a (k * bound) ≡ k
blocks_leave bound n a zero l =
    let e : 0 * bound ≡ 0 = omega arith in
    ap (count_from (leaves bound n) a) e ∙ count_from-zero (leaves bound n) a
blocks_leave bound n a (suc k) l =
    let e : suc k * bound ≡ bound + k * bound = omega arith in
    ap (count_from (leaves bound n) a) e
    ∙ omega (
      arith,
      count_from-add (leaves bound n) a bound (k * bound),
      one_leaves bound n a l,
      blocks_leave bound n (a + bound) k l,
    )

module _ (bound n : ℕ) (l : n < bound) where
  rejected_words : count_from (answers bound n) 0 (threshold bound) ≡ 0
  rejected_words =
      count_from-none (answers bound n) 0 (threshold bound)
        (λ i below. ground (arith, answers_iff bound n (0 + i)))

  accepted_words :
      (m : ℕ)
      → count_from (answers bound n) (threshold bound) m
        ≡ count_from (leaves bound n) (threshold bound) m
  accepted_words m =
      count_from-agree (answers bound n) (leaves bound n) (threshold bound) m
        (λ i _. ground (arith, answers_iff bound n (threshold bound + i)))

  answering_words : (k : ℕ) → count_from (answers bound n) 0 (threshold bound + k * bound) ≡ k
  answering_words k =
      let e : 0 + threshold bound ≡ threshold bound = omega arith in
      omega (
        arith,
        count_from-add (answers bound n) 0 (threshold bound) (k * bound),
        ap (λ x. count_from (answers bound n) x (k * bound)) e,
        rejected_words,
        accepted_words (k * bound),
        blocks_leave bound n (threshold bound) k l,
      )

-- What is left of the words above the threshold is a whole number of blocks.
accepted_blocks :
    (bound : ℕ)
    → 0 < bound
    → bound < word_mod
    → (k : ℕ) × (0 < k) × (threshold bound + k * bound ≡ word_mod)
unfolding threshold
accepted_blocks bound b w = (
  (word_mod - bound) / bound + 1,
  omega arith,
  grind (arith, div-add-mod (word_mod - bound) bound),
)

-- For every positive bound below 2 to the 64 there is a positive number k, such that for every
-- number below the bound, exactly k of the 2 to the 64 words make the first round of Uniform
-- return that number.
pub uniform_fair :
    (bound : ℕ)
    → 0 < bound
    → bound < word_mod
    → (k : ℕ) × (0 < k) × ((n : ℕ) → n < bound → count_from (answers bound n) 0 word_mod ≡ k)
uniform_fair bound b w =
    let (k, pos, e) = accepted_blocks bound b w in
    (
      k,
      pos,
      λ n l. subst (λ x. count_from (answers bound n) 0 x ≡ k) e (answering_words bound n l k),
    )
