-- ===== src/RandomizedSetup/RoundTrip.antt =====
-- server/business/doudizhu/domain/randomizedsetup/module.go: a setup that was encoded is decoded again.
use awesome_zero_platform.Base.{
  ℕ, suc, ◌+◌, ◌*◌, ◌-◌, ◌/◌, ◌%◌, ◌≤◌, ◌≡◌, refl, sym, ap, ◌∙◌, Bool, true, false, not, ◌||◌, List,
  [], ◌∷◌, ◌++◌, Result, ok, err, ◌>>=◌, reject, ltb, ◌==◌, length, length-append, take, drop,
  arith, bind_ok, bind_steps, ok-injective,
}
use awesome_zero_platform.Base.Text.{Text, text_eq, text_eq_refl}
use awesome_zero_platform.Carddeck
use awesome_zero_platform.Carddeck.{validate_deck, deck_size, cards_per_seat, landlord_card_count}
use awesome_zero_platform.Carddeck.Deal.{DealResult, deal}
use awesome_zero_platform.Carddeck.Transcript.{digest_deck}
use awesome_zero_platform.RandomizedSetup.{Setup, verification_failed}
use awesome_zero_platform.RandomizedSetup.Codec.{
  from_cards, string_bytes, versions, strings_bytes, setup_bytes, matches, read_array, read_bytes,
  read_string, read_versions, read_setup, encode_setup, decode_setup,
}

take-append : (xs ys : Text) → take (length xs) (xs ++ ys) ≡ xs
take-append [] ys = refl
take-append (x ∷ xs) ys = ap (λ l. x ∷ l) (take-append xs ys)

drop-append : (xs ys : Text) → drop (length xs) (xs ++ ys) ≡ ys
drop-append [] ys = refl
drop-append (x ∷ xs) ys = drop-append xs ys

append_nil : (xs : Text) → xs ++ [] ≡ xs
append_nil [] = refl
append_nil (x ∷ xs) = ap (λ l. x ∷ l) (append_nil xs)

read_array-append : (xs ys : Text) → 1 ≤ length xs → read_array (length xs) (xs ++ ys) ≡ ok (xs, ys)
unfolding read_array
read_array-append [] ys h = absurd (omega arith)
read_array-append (x ∷ xs) ys h =
    let nothing : suc (length xs) - suc (length xs) ≡ 0 = omega arith in
    ap ok (rw (take-append xs ys, drop-append xs ys, nothing, append_nil xs) refl)

read_bytes-append : (xs ys : Text) → read_bytes (length xs) (xs ++ ys) ≡ ok (xs, ys)
unfolding read_bytes
read_bytes-append [] ys = refl
read_bytes-append (x ∷ xs) ys = rw (read_bytes-append xs ys) refl

read_bytes-all : (xs : Text) → read_bytes (length xs) xs ≡ ok (xs, [])
read_bytes-all xs =
    rw (ap (read_bytes (length xs)) (sym (append_nil xs)) ∙ read_bytes-append xs []) refl

read_string-append :
    (v ys : Text) → 1 ≤ length v → length v ≤ 128 → read_string (string_bytes v ++ ys) ≡ ok (v, ys)
unfolding read_string read_array
read_string-append v ys some_text short =
    let size : length v / 256 % 256 * 256 + length v % 256 ≡ length v = omega arith in
    let fits : (length v == 0 || ltb 128 (length v) || ltb (length (v ++ ys)) (length v)) ≡ false =
      ground (arith, length-append v ys) in
    rw (size, fits) (read_array-append v ys some_text)

abbrev AllSized : List Text → Type 0
AllSized [] = Unit {0}
AllSized (v ∷ rest) = (1 ≤ length v) × (length v ≤ 128) × AllSized rest

append_assoc : (xs ys zs : Text) → (xs ++ ys) ++ zs ≡ xs ++ (ys ++ zs)
append_assoc [] ys zs = refl
append_assoc (x ∷ xs) ys zs = ap (λ l. x ∷ l) (append_assoc xs ys zs)

read_versions-strings :
    (vs : List Text) (ys : Text) → AllSized vs → read_versions vs (strings_bytes vs ++ ys) ≡ ok ys
unfolding read_versions strings_bytes
read_versions-strings [] ys h = refl
read_versions-strings (v ∷ vs) ys (some_text, short, rest) =
    ap (λ bytes. read_versions (v ∷ vs) bytes) (append_assoc (string_bytes v) (strings_bytes vs) ys)
    ∙ bind_ok (read_string (string_bytes v ++ (strings_bytes vs ++ ys))) _
        (v, strings_bytes vs ++ ys) (read_string-append v (strings_bytes vs ++ ys) some_text short)
    ∙ rw (text_eq_refl v) (read_versions-strings vs ys rest)

-- The arrays of a setup have the sizes of their types.
pub record Sized (s : Setup) : Type 0 where
  pub seed : length s.shuffle_seed ≡ 32
  pub deck : length s.deck ≡ deck_size
  pub deck_digest : length s.deck_digest ≡ 32
  pub first : length s.hands.first ≡ cards_per_seat
  pub second : length s.hands.second ≡ cards_per_seat
  pub third : length s.hands.third ≡ cards_per_seat
  pub landlord_cards : length s.landlord_cards ≡ landlord_card_count
  pub deal_digest : length s.deal_digest ≡ 32

sized_array :
    (n : ℕ) (xs ys : Text) → length xs ≡ suc n → read_array (suc n) (xs ++ ys) ≡ ok (xs, ys)
sized_array n xs ys h =
    ap (λ k. read_array k (xs ++ ys)) (sym h) ∙ read_array-append xs ys (omega arith)

sized_bytes : (n : ℕ) (xs ys : Text) → length xs ≡ n → read_bytes n (xs ++ ys) ≡ ok (xs, ys)
sized_bytes n xs ys h = ap (λ k. read_bytes k (xs ++ ys)) (sym h) ∙ read_bytes-append xs ys

read_setup-bytes : (s : Setup) → Sized s → read_setup (setup_bytes s) ≡ ok s
unfolding read_setup setup_bytes
read_setup-bytes s z =
    let rest7 = s.landlord_cards in
    let rest6 = s.hands.third ++ rest7 in
    let rest5 = s.hands.second ++ rest6 in
    let rest4 = s.hands.first ++ rest5 in
    let rest3 = s.deal_digest ++ rest4 in
    let rest2 = s.deck ++ rest3 in
    let rest1 = s.deck_digest ++ rest2 in
    rw
      (
        sized_array 31 s.shuffle_seed rest1 z.seed,
        sized_array 31 s.deck_digest rest2 z.deck_digest,
        sized_bytes deck_size s.deck rest3 z.deck,
        sized_array 31 s.deal_digest rest4 z.deal_digest,
        sized_bytes cards_per_seat s.hands.first rest5 z.first,
        sized_bytes cards_per_seat s.hands.second rest6 z.second,
        sized_bytes cards_per_seat s.hands.third rest7 z.third,
        ap (λ k. read_bytes k rest7) (sym z.landlord_cards) ∙ read_bytes-all rest7,
      )
      refl

from_cards-eq_ok :
    {A : Type 0} (r : Result Carddeck.Error A) (a : A) → from_cards r ≡ ok a → r ≡ ok a
from_cards-eq_ok (ok b) a h = ap ok (ok-injective h)
from_cards-eq_ok (err e) a h = cc

-- What a setup that is encoded has passed.
pub record Encoded (sha256 : Text → Text) (s : Setup) (payload : Text) : Type 0 where
  pub dealt : DealResult
  pub valid : validate_deck s.deck ≡ ok tt
  pub from_deck : deal sha256 s.deck ≡ ok dealt
  pub is_dealt : matches dealt s ≡ true
  pub bytes : payload ≡ strings_bytes versions ++ setup_bytes s

rejected_not : (b : Bool) (u : Unit {0}) → reject (not b) verification_failed ≡ ok u → b ≡ true
rejected_not true u h = refl
rejected_not false u h = cc

pub encode_setup-eq_ok :
    (sha256 : Text → Text) (s : Setup) (payload : Text)
    → encode_setup sha256 s ≡ ok payload
    → Encoded sha256 s payload
unfolding encode_setup
encode_setup-eq_ok sha256 s payload h =
    let (_, valid, h1) = bind_steps (from_cards (validate_deck s.deck)) _ payload h in
    let (digest, _, h2) = bind_steps (from_cards (digest_deck sha256 s.deck)) _ payload h1 in
    let (_, _, h3) =
      bind_steps (reject (not (text_eq digest s.deck_digest)) verification_failed) _ payload h2 in
    let (dealt, from_deck, h4) = bind_steps (from_cards (deal sha256 s.deck)) _ payload h3 in
    let (u, same, h5) =
      bind_steps (reject (not (matches dealt s)) verification_failed) _ payload h4 in
    record {
      dealt = dealt;
      valid = from_cards-eq_ok (validate_deck s.deck) tt valid;
      from_deck = from_cards-eq_ok (deal sha256 s.deck) dealt from_deck;
      is_dealt = rejected_not (matches dealt s) u same;
      bytes = sym (ok-injective h5);
    }

versions-AllSized : AllSized versions
versions-AllSized = ground arith

-- If a setup whose arrays have their sizes is encoded, the bytes are decoded to the same setup.
pub decode_setup-encode_setup :
    (sha256 : Text → Text) (s : Setup) (payload : Text)
    → Sized s
    → encode_setup sha256 s ≡ ok payload
    → decode_setup sha256 payload ≡ ok s
unfolding decode_setup
decode_setup-encode_setup sha256 s payload z h =
    let e : payload ≡ strings_bytes versions ++ setup_bytes s =
      (encode_setup-eq_ok sha256 s payload h).bytes in
    ap
      (λ p. read_versions versions p >>= λ left.
        read_setup left >>= λ s'. encode_setup sha256 s' >>= λ encoded. ok s')
      e
    ∙ rw (read_versions-strings versions (setup_bytes s) versions-AllSized, read_setup-bytes s z, h)
        refl
