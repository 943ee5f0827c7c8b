-- ===== src/Carddeck/Codes.antt =====
-- Card codes: printing and parsing are inverse to each other.
use awesome_zero_platform.Base.{
  ℕ, suc, ◌+◌, ◌-◌, ◌*◌, ◌≤◌, ◌<◌, ◌≡◌, refl, ap, sym, ◌∙◌, inl, inr, Bool, true, false, ◌||◌,
  ok-injective, reject, List, [], ◌∷◌, some, Result, ok, err, ◌>>=◌, ◌>>◌, arith, ltb, ◌==◌, length,
  get_or, drop, Bool-cases, Option-cases, Result-cases,
}
use awesome_zero_platform.Base.Text.{Text, codes, text_eq, text_eq→eq}
use awesome_zero_platform.Base.Tables.{holds_below, holds_below_at}
use awesome_zero_platform.Carddeck.{
  Error, invalid_argument, deck_size, card_code, parse_card, rank_index, rank_codes, suit_codes,
  parse_suit, parse_rank,
}

abbrev is_ok : Result Error ℕ → ℕ → Bool
is_ok (ok a) b = a == b
is_ok (err e) b = false

is_ok→eq : (r : Result Error ℕ) (b : ℕ) → is_ok r b ≡ true → r ≡ ok b
is_ok→eq r b h = ground arith

round_trip_table : holds_below 54 (λ c. is_ok (card_code c >>= parse_card) c) ≡ true
unfolding holds_below card_code parse_card
round_trip_table = refl

-- Every card of the deck is read back from its code.
pub parse_card-card_code : (c : ℕ) → c < deck_size → (card_code c >>= parse_card) ≡ ok c
parse_card-card_code c h = is_ok→eq _ c (holds_below_at 54 _ c round_trip_table h)

abbrev text_is : Result Error Text → Text → Bool
text_is (ok a) b = text_eq a b
text_is (err e) b = false

text_is→eq : (r : Result Error Text) (b : Text) → text_is r b ≡ true → r ≡ ok b
text_is→eq (ok a) b h = ap ok (text_eq→eq a b h)
text_is→eq (err e) b h = cc

code_table :
    holds_below 13 (λ r.
      holds_below 4
        (λ s. text_is (card_code (r * 4 + s)) (get_or suit_codes s 0 ∷ get_or rank_codes r [])))
    ≡ true
unfolding holds_below card_code text_eq
code_table = refl

code_of :
    (r s : ℕ)
    → r < 13
    → s < 4
    → card_code (r * 4 + s) ≡ ok (get_or suit_codes s 0 ∷ get_or rank_codes r [])
code_of r s hr hs = text_is→eq _ _ (
    holds_below_at 4
      (λ t. text_is (card_code (r * 4 + t)) (get_or suit_codes t 0 ∷ get_or rank_codes r [])) s
      (holds_below_at 13
        (λ q.
          holds_below 4
            (λ t. text_is (card_code (q * 4 + t)) (get_or suit_codes t 0 ∷ get_or rank_codes q [])))
        r code_table hr)
      hs)

rank_index_sound :
    (i : ℕ) (cs : List Text) (text : Text) (r : ℕ)
    → rank_index i cs text ≡ some r
    → (i ≤ r) × (r < i + length cs) × (get_or cs (r - i) [] ≡ text)
unfolding rank_index
rank_index_sound i [] text r h = cc
rank_index_sound i (c ∷ cs) text r h = elim (Bool-cases (text_eq text c)) [
  | inl hit ↦
      let e : i ≡ r = cc (rw (hit, rank_index) at h) in
      let z : r - i ≡ 0 = omega arith in
      (omega arith, omega arith, rw z (sym (text_eq→eq text c hit)))
  | inr miss ↦
      let (lo, hi, eq) = rank_index_sound (suc i) cs text r (rw (miss, rank_index) at h) in
      let z : r - i ≡ suc (r - suc i) = omega arith in (omega arith, omega arith, rw z eq)
]

parse_suit_sound : (b s : ℕ) → parse_suit b ≡ ok s → (s < 4) × (get_or suit_codes s 0 ≡ b)
unfolding parse_suit
parse_suit_sound b s h = ground arith

parse_rank_sound :
    (s : ℕ) (text : Text) (c : ℕ)
    → parse_rank s text ≡ ok c
    → (r : ℕ) × (r < 13) × (c ≡ r * 4 + s) × (get_or rank_codes r [] ≡ text)
unfolding parse_rank
parse_rank_sound s text c h = elim (Option-cases (rank_index 0 rank_codes text)) [
  | inl none' ↦ cc (rw (none', parse_rank) at h)
  | inr (r, found) ↦
      let (lo, hi, eq) = rank_index_sound 0 rank_codes text r found in
      let z : r - 0 ≡ r = omega arith in
      (r, omega arith, sym (ok-injective (rw (found, parse_rank) at h)), rw z at eq)
]

-- `ParseCard` without its special cases for the jokers.
parse_plain : Text → Result Error ℕ
unfolding parse_suit parse_rank
parse_plain code = do
  reject (ltb (length code) 2 || ltb 3 (length code)) invalid_argument
  suit ← parse_suit (get_or code 0 0)
  parse_rank suit (drop 1 code)

parse_plain_sound :
    (code : Text) (c : ℕ) → parse_plain code ≡ ok c → (c < 54) × (card_code c ≡ ok code)
unfolding parse_plain
parse_plain_sound [] c h = cc
parse_plain_sound (b ∷ text) c h =
    elim (Bool-cases (ltb (length (b ∷ text)) 2 || ltb 3 (length (b ∷ text)))) [
      | inl bad ↦ cc (rw bad at h)
      | inr fine ↦ elim (Result-cases (parse_suit b)) [
        | inr (e, refused) ↦ cc (rw (fine, refused) at h)
        | inl (s, suited) ↦
            let (r, small, value, shown) = parse_rank_sound s text c (rw (fine, suited) at h) in
            let (s_small, s_shown) = parse_suit_sound b s suited in
            (omega arith, rw value (code_of r s small s_small ∙ ap ok (cc)))
      ]
    ]

x_code : card_code 52 ≡ ok (codes "XJ")
unfolding card_code
x_code = refl

y_code : card_code 53 ≡ ok (codes "YJ")
unfolding card_code
y_code = refl

-- If a text is read as a card, the card is in the deck and the text is its code.
pub card_code-parse_card :
    (code : Text) (c : ℕ) → parse_card code ≡ ok c → (c < deck_size) × (card_code c ≡ ok code)
unfolding parse_card
card_code-parse_card code c h = elim (Bool-cases (text_eq code (codes "XJ"))) [
  | inl x ↦
      let e : 52 ≡ c = ok-injective (rw x at h) in
      (omega arith, ap card_code (sym e) ∙ x_code ∙ ap ok (sym (text_eq→eq code _ x)))
  | inr not_x ↦ elim (Bool-cases (text_eq code (codes "YJ"))) [
    | inl y ↦
        let e : 53 ≡ c = ok-injective (rw (not_x, y) at h) in
        (omega arith, ap card_code (sym e) ∙ y_code ∙ ap ok (sym (text_eq→eq code _ y)))
    | inr not_y ↦ parse_plain_sound code c (unfold parse_plain in rw (not_x, not_y) at h)
  ]
]
