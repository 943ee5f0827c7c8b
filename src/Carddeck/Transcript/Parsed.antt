-- ===== src/Carddeck/Transcript/Parsed.antt =====
-- What ParseTranscript of carddeck/transcript_decode.go promises of the transcript it returns.
use awesome_zero_platform.Base.{
  ℕ, ◌≡◌, refl, ap, subst, ◌∙◌, Bool, true, false, not, ok, ◌>>=◌, reject, bind_steps, ok-injective,
}
use awesome_zero_platform.Base.Text.{Text, text_eq}
use awesome_zero_platform.Carddeck.{verification_failed}
use awesome_zero_platform.Carddeck.Transcript.{
  Transcript, lifted, canonical_bytes, verify_transcript,
}
use awesome_zero_platform.Carddeck.Transcript.Decode.{read_transcript, parse_transcript}
use awesome_zero_platform.Carddeck.Transcript.Laws.{text_eq_sound, lifted-ok}

canonical_known :
    (b : Bool) (t u : Transcript)
    → (lifted (reject (not b) verification_failed) >>= λ _. ok t) ≡ ok u
    → (b ≡ true) × (t ≡ u)
canonical_known true t u h = (refl, ok-injective h)
canonical_known false t u h = cc

module _ (sha256 : Text → Text) (mac : Text → Text → Text) (fuel : ℕ) where
  -- A transcript that is parsed from bytes was read from them, is verified, and its canonical
  -- bytes are those bytes.
  pub parse_transcript_sound :
      (canonical : Text) (t : Transcript)
      → parse_transcript sha256 mac fuel canonical ≡ ok t
      → (read_transcript sha256 canonical ≡ ok t)
        × (verify_transcript sha256 mac fuel t ≡ ok tt)
        × (canonical_bytes sha256 t ≡ ok canonical)
  unfolding parse_transcript
  parse_transcript_sound canonical t h =
      let (u, was_read, h1) = bind_steps (lifted (read_transcript sha256 canonical)) _ t h in
      let (_, verified, h2) = bind_steps (verify_transcript sha256 mac fuel u) _ t h1 in
      let (bytes, encoded, h3) = bind_steps (lifted (canonical_bytes sha256 u)) _ t h2 in
      let (same, e) = canonical_known (text_eq bytes canonical) u t h3 in
      let sound : bytes ≡ canonical = text_eq_sound bytes canonical same in
      let e1 : read_transcript sha256 canonical ≡ ok u = lifted-ok _ u was_read in
      let e2 : canonical_bytes sha256 u ≡ ok bytes = lifted-ok _ bytes encoded in
      subst
        (λ x.
          (read_transcript sha256 canonical ≡ ok x)
          × (verify_transcript sha256 mac fuel x ≡ ok tt)
          × (canonical_bytes sha256 x ≡ ok canonical))
        e (e1, verified, e2 ∙ ap ok sound)
