-- ===== src/Carddeck/Transcript/Laws.antt =====
-- A transcript is verified exactly if it is the one that its input builds.
use awesome_zero_platform.Base.{
  ℕ, ◌≡◌, refl, sym, ap, subst, ◌∙◌, Bool, true, false, not, List, Result, ok, err, ◌>>=◌, reject,
  length, arith, ok-injective, bind_steps,
}
use awesome_zero_platform.Base.Text.{Text, text_eq, text_eq_iff, text_eq_refl}
use awesome_zero_platform.Carddeck
use awesome_zero_platform.Carddeck.Deal.{DealResult, deal, compute_digest, reconstruct_deck}
use awesome_zero_platform.Carddeck.Seed.{ShuffleInput, derive_seed, canonical_input}
use awesome_zero_platform.Carddeck.Stream.{new_stream, next_word}
use awesome_zero_platform.Carddeck.Shuffle.{shuffle_deck}
use awesome_zero_platform.Carddeck.{validate_deck, canonical_deck}
use awesome_zero_platform.Carddeck.Transcript.{
  Transcript, TranscriptInput, ShuffleResult, Fault, lifted, drawn_or, current_versions,
  versions_eq, deal_eq, equal32, shuffle, digest_deck, validate_transcript_input, canonical_bytes,
  digest_transcript, shuffle_input_of, undigested, transcript_bytes, build_transcript,
  same_transcript, verify_transcript,
}

-- What two transcripts share that `VerifyTranscript` does not tell apart.
pub record Agrees (t u : Transcript) : Type 0 where
  pub seed : t.shuffle_seed_digest ≡ u.shuffle_seed_digest
  pub deck : t.deck ≡ u.deck
  pub deck_digest : t.deck_digest ≡ u.deck_digest
  pub hand1 : t.dealt.hands.first ≡ u.dealt.hands.first
  pub hand2 : t.dealt.hands.second ≡ u.dealt.hands.second
  pub hand3 : t.dealt.hands.third ≡ u.dealt.hands.third
  pub landlord_cards : t.dealt.landlord_cards ≡ u.dealt.landlord_cards
  pub deal_digest : t.deal_digest ≡ u.deal_digest
  pub transcript_digest : t.transcript_digest ≡ u.transcript_digest

pub text_eq_sound : (s t : Text) → text_eq s t ≡ true → s ≡ t
text_eq_sound s t h = (text_eq_iff s t).0 h

equal32_sound : (s t : Text) → equal32 s t ≡ true → s ≡ t
equal32_sound s t h = text_eq_sound s t (ground (arith, h))

same_transcript_sound : (u t : Transcript) → same_transcript u t ≡ ok tt → Agrees t u
unfolding same_transcript deal_eq
same_transcript_sound u t h = record {
  seed = sym (equal32_sound _ _ (ground (arith, h)));
  deck = sym (text_eq_sound _ _ (ground (arith, h)));
  deck_digest = sym (equal32_sound _ _ (ground (arith, h)));
  hand1 = sym (text_eq_sound _ _ (ground (arith, h)));
  hand2 = sym (text_eq_sound _ _ (ground (arith, h)));
  hand3 = sym (text_eq_sound _ _ (ground (arith, h)));
  landlord_cards = sym (text_eq_sound _ _ (ground (arith, h)));
  deal_digest = sym (equal32_sound _ _ (ground (arith, h)));
  transcript_digest = sym (equal32_sound _ _ (ground (arith, h)));
}

pub lifted-ok : {A : Type 0} (r : Result Carddeck.Error A) (a : A) → lifted r ≡ ok a → r ≡ ok a
lifted-ok (ok b) a h = ap ok (ok-injective h)
lifted-ok (err e) a h = cc

versions_known :
    (b : Bool) (rest : Result Fault (Unit {0}))
    → (lifted (reject (not b) Carddeck.unsupported_version) >>= λ _. rest) ≡ ok tt
    → b ≡ true
versions_known true rest h = refl
versions_known false rest h = cc

module _ (sha256 : Text → Text) (mac : Text → Text → Text) (fuel : ℕ) where
  -- A transcript is verified only if its versions are the current ones and its input builds a
  -- transcript that agrees with it: in the seed, the deck, the hands, the landlord's cards, and
  -- the digests of the deck, the deal and the transcript.
  pub verify_transcript_sound :
      (t : Transcript)
      → verify_transcript sha256 mac fuel t ≡ ok tt
      → (versions_eq t.versions current_versions ≡ true)
        × ((u : Transcript) × (build_transcript sha256 mac fuel t.input ≡ ok u) × Agrees t u)
  unfolding verify_transcript
  verify_transcript_sound t h =
      let known : versions_eq t.versions current_versions ≡ true =
        versions_known (versions_eq t.versions current_versions) _ h in
      let (_, v, h1) =
        bind_steps
          (lifted
            (reject (not (versions_eq t.versions current_versions)) Carddeck.unsupported_version))
          _ tt h in
      let (u, b, h2) = bind_steps (build_transcript sha256 mac fuel t.input) _ tt h1 in
      (known, (u, b, same_transcript_sound u t (lifted-ok (same_transcript u t) tt h2)))

  abbrev IsHash : Type 0
  IsHash = (bytes : Text) → length (sha256 bytes) ≡ 32

  compute_digest-length :
      IsHash
      → (r : DealResult) (digest : Text) → compute_digest sha256 r ≡ ok digest
      → length digest ≡ 32
  unfolding compute_digest
  compute_digest-length is_hash r digest h =
      let (_, _, e) = bind_steps (validate_deck (reconstruct_deck r)) _ digest h in
      ap length (sym (ok-injective e)) ∙ is_hash _

  deal_digest-length :
      IsHash → (deck : List ℕ) (r : DealResult) → deal sha256 deck ≡ ok r → length r.digest ≡ 32
  unfolding deal
  deal_digest-length is_hash deck r h =
      let (_, _, e) = bind_steps (validate_deck deck) _ r h in
      let (digest, c, e') = bind_steps (compute_digest sha256 _) _ r e in
      ap (λ (x : DealResult). length x.digest) (sym (ok-injective e'))
      ∙ compute_digest-length is_hash _ digest c

  digest_deck-length :
      IsHash
      → (deck : List ℕ) (digest : Text) → digest_deck sha256 deck ≡ ok digest
      → length digest ≡ 32
  unfolding digest_deck
  digest_deck-length is_hash deck digest h =
      let (_, _, e) = bind_steps (validate_deck deck) _ digest h in
      ap length (sym (ok-injective e)) ∙ is_hash _

  derive_seed-length :
      IsHash
      → (input : ShuffleInput) (seed : Text) → derive_seed sha256 input ≡ ok seed
      → length seed ≡ 32
  unfolding derive_seed
  derive_seed-length is_hash input seed h =
      let (_, _, e) = bind_steps (canonical_input input) _ seed h in
      ap length (sym (ok-injective e)) ∙ is_hash _

  shuffle-lengths :
      IsHash
      → (input : ShuffleInput) (r : ShuffleResult) → shuffle sha256 mac fuel input ≡ ok r
      → (length r.seed ≡ 32) × (length r.deck_digest ≡ 32)
  unfolding shuffle
  shuffle-lengths is_hash input r h =
      let (seed, s, h1) = bind_steps (lifted (derive_seed sha256 input)) _ r h in
      let (stream, _, h2) = bind_steps (lifted (new_stream seed)) _ r h1 in
      let (drawn, _, h3) =
        bind_steps (drawn_or (shuffle_deck (next_word mac) fuel canonical_deck stream)) _ r h2 in
      let (digest, d, h4) = bind_steps (lifted (digest_deck sha256 drawn.0)) _ r h3 in
      (
        ap (λ (x : ShuffleResult). length x.seed) (sym (ok-injective h4))
            ∙ derive_seed-length is_hash input seed (lifted-ok _ seed s),
        ap (λ (x : ShuffleResult). length x.deck_digest) (sym (ok-injective h4))
            ∙ digest_deck-length is_hash drawn.0 digest (lifted-ok _ digest d),
      )

  same_transcript_refl :
      (t : Transcript)
      → length t.shuffle_seed_digest ≡ 32
      → length t.deck_digest ≡ 32
      → length t.deal_digest ≡ 32
      → length t.transcript_digest ≡ 32
      → same_transcript t t ≡ ok tt
  unfolding same_transcript deal_eq
  same_transcript_refl t a b c d = ground (
    arith,
    text_eq_refl t.shuffle_seed_digest,
    text_eq_refl t.deck,
    text_eq_refl t.deck_digest,
    text_eq_refl t.dealt.hands.first,
    text_eq_refl t.dealt.hands.second,
    text_eq_refl t.dealt.hands.third,
    text_eq_refl t.dealt.landlord_cards,
    text_eq_refl t.deal_digest,
    text_eq_refl t.transcript_digest,
  )

  -- What a transcript that is built holds.
  record Built (input : TranscriptInput) (t : Transcript) : Type 0 where
    shuffled : ShuffleResult
    dealt : DealResult
    canonical : Text
    from_shuffle : shuffle sha256 mac fuel (shuffle_input_of input) ≡ ok shuffled
    from_deal : deal sha256 shuffled.deck ≡ ok dealt
    is_canonical : canonical_bytes sha256 (undigested input shuffled dealt) ≡ ok canonical
    is_built :
        record (undigested input shuffled dealt) {
          transcript_digest = digest_transcript sha256 canonical;
        }
        ≡ t

  build_transcript-Built :
      (input : TranscriptInput) (t : Transcript)
      → build_transcript sha256 mac fuel input ≡ ok t
      → Built input t
  unfolding build_transcript
  build_transcript-Built input t h =
      let (_, _, h1) = bind_steps (lifted (validate_transcript_input sha256 input)) _ t h in
      let (shuffled, s, h2) =
        bind_steps (shuffle sha256 mac fuel (shuffle_input_of input)) _ t h1 in
      let (dealt, d, h3) = bind_steps (lifted (deal sha256 shuffled.deck)) _ t h2 in
      let (canonical, c, h4) =
        bind_steps (lifted (canonical_bytes sha256 (undigested input shuffled dealt))) _ t h3 in
      record {
        shuffled = shuffled;
        dealt = dealt;
        canonical = canonical;
        from_shuffle = s;
        from_deal = lifted-ok _ dealt d;
        is_canonical = lifted-ok _ canonical c;
        is_built = ok-injective h4;
      }

  verify-Built :
      (input : TranscriptInput) (t : Transcript)
      → IsHash
      → build_transcript sha256 mac fuel input ≡ ok t
      → Built input t
      → verify_transcript sha256 mac fuel t ≡ ok tt
  unfolding verify_transcript undigested versions_eq current_versions text_eq digest_transcript
  verify-Built input t is_hash h b =
      let built : Transcript = record (undigested input b.shuffled b.dealt) {
        transcript_digest = digest_transcript sha256 b.canonical;
      } in
      let (l1, l2) = shuffle-lengths is_hash (shuffle_input_of input) b.shuffled b.from_shuffle in
      let same : same_transcript built built ≡ ok tt =
        same_transcript_refl built l1 l2
          (deal_digest-length is_hash b.shuffled.deck b.dealt b.from_deal) (is_hash _) in
      subst (λ x. verify_transcript sha256 mac fuel x ≡ ok tt) b.is_built
        (rw (h ∙ ap ok (sym b.is_built)) (ap lifted same))

  -- For a hash function whose values have 32 bytes: a transcript that is built from its input is
  -- verified.
  pub verify-build_transcript :
      (input : TranscriptInput) (t : Transcript)
      → IsHash
      → build_transcript sha256 mac fuel input ≡ ok t
      → verify_transcript sha256 mac fuel t ≡ ok tt
  verify-build_transcript input t is_hash h =
      verify-Built input t is_hash h (build_transcript-Built input t h)

  abbrev Sealed : Transcript → Type 0
  Sealed t =
      (bytes : Text) × (canonical_bytes sha256 t ≡ ok bytes)
      × (t.transcript_digest ≡ digest_transcript sha256 bytes)

  Built-Sealed : (input : TranscriptInput) (t : Transcript) → Built input t → Sealed t
  unfolding canonical_bytes transcript_bytes undigested
  Built-Sealed input t b = subst Sealed b.is_built (b.canonical, b.is_canonical, refl)

  -- The canonical bytes of a built transcript can be written, and their digest is its digest.
  pub build_transcript-Sealed :
      (input : TranscriptInput) (t : Transcript)
      → build_transcript sha256 mac fuel input ≡ ok t
      → (bytes : Text) × (canonical_bytes sha256 t ≡ ok bytes)
        × (t.transcript_digest ≡ digest_transcript sha256 bytes)
  build_transcript-Sealed input t h = Built-Sealed input t (build_transcript-Built input t h)
