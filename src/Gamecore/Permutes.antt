-- ===== src/Gamecore/Permutes.antt =====
-- server/business/gamecore/random.go: a random permutation holds every index once.
use awesome_zero_platform.Base.{
  ℕ, zero, suc, ◌+◌, ◌-◌, ◌≤◌, ◌<◌, ◌≡◌, refl, sym, ◌∙◌, inl, inr, ◌||◌, List, none, some, ok,
  arith, ltb, leb, if◌then◌else◌, length, reject, bind_steps, Option-cases,
}
use awesome_zero_platform.Carddeck.Deal.{tabulate}
use awesome_zero_platform.Carddeck.Deck.{count}
use awesome_zero_platform.Carddeck.Random.{uniform_loop, uniform_loop-lt}
use awesome_zero_platform.Carddeck.Shuffle.{swap}
use awesome_zero_platform.Carddeck.Shuffle.Laws.{count-swap, length-swap}
use awesome_zero_platform.Gamecore.{invalid_argument}
use awesome_zero_platform.Gamecore.Random.{
  uniform, permute_from, permutation, max_permutation_items,
}

length-tabulate : (i n : ℕ) (f : ℕ → ℕ) → length (tabulate i n f) ≡ n
unfolding tabulate
length-tabulate i zero f = refl
length-tabulate i (suc n) f = omega (arith, length-tabulate (suc i) n f)

count-indices :
    (x i n : ℕ)
    → count x (tabulate i n (λ k. k)) ≡ (if leb i x then (if ltb x (i + n) then 1 else 0) else 0)
unfolding tabulate
count-indices x i zero = ground arith
count-indices x i (suc n) = ground (arith, count-indices x (suc i) n)

module _ {S : Type 0} (draw : S → ℕ × S) (fuel : ℕ) where
  permute_step :
      (i : ℕ) (items : List ℕ) (s : S) (k : ℕ) (u : S)
      → uniform_loop draw fuel (suc i + 1) s ≡ some (k, u)
      → permute_from draw fuel (suc i) items s ≡ permute_from draw fuel i (swap items (suc i) k) u
  unfolding permute_from uniform
  permute_step i items s k u e = ground (arith, e)

  permute_dry :
      (i : ℕ) (items : List ℕ) (s : S)
      → uniform_loop draw fuel (suc i + 1) s ≡ none
      → permute_from draw fuel (suc i) items s ≡ ok none
  unfolding permute_from uniform
  permute_dry i items s e = ground (arith, e)

  permute_from-count :
      (i : ℕ) (items : List ℕ) (s : S) (out : List ℕ) (t : S)
      → i < length items
      → permute_from draw fuel i items s ≡ ok (some (out, t))
      → (length out ≡ length items) × ((x : ℕ) → count x out ≡ count x items)
  permute_from-count zero items s out t n h =
      (unfold permute_from in ground arith, λ x. unfold permute_from in ground arith)
  permute_from-count (suc i) items s out t n h =
      elim (Option-cases (uniform_loop draw fuel (suc i + 1) s)) [
        | inl dry ↦ cc (rw (permute_dry i items s dry) at h)
        | inr ((k, u), drawn) ↦
            let below = uniform_loop-lt draw fuel (suc i + 1) s k u (omega arith) drawn in
            let size = length-swap items (suc i) k in
            let (sized, counted) =
              permute_from-count i (swap items (suc i) k) u out t (omega (arith, size))
                (sym (permute_step i items s k u drawn) ∙ h) in
            (sized ∙ size, λ x. counted x ∙ count-swap x items (suc i) k n (omega (arith, below)))
      ]

  -- For every source of words and every fuel: if a permutation of some number of items is returned,
  -- it has that many entries, it holds every number below exactly once, and nothing else.
  pub permutation-counts :
      (n : ℕ) (s : S) (out : List ℕ) (t : S)
      → permutation draw fuel n s ≡ ok (some (out, t))
      → (length out ≡ n) × ((x : ℕ) → count x out ≡ (if ltb x n then 1 else 0))
  unfolding permutation
  permutation-counts n s out t h =
      let (_, allowed, h1) =
        bind_steps (reject (ltb n 1 || ltb max_permutation_items n) invalid_argument) _
          (some (out, t)) h in
      let some_item : 1 ≤ n = ground arith in
      let size = length-tabulate 0 n (λ k. k) in
      let (sized, counted) =
        permute_from-count (n - 1) (tabulate 0 n (λ k. k)) s out t (omega (arith, size)) h1 in
      (sized ∙ size, λ x. ground (arith, counted x, count-indices x 0 n))
