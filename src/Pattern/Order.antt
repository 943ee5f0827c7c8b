-- ===== src/Pattern/Order.antt =====
-- Which play beats which is a strict order on the valid patterns.
use awesome_zero_platform.Base.{◌≡◌, Bool, true, false, ok, arith}
use awesome_zero_platform.Pattern.{Pattern, pattern_valid, beats, can_beat}

-- A valid pattern does not beat itself.
pub can_beat_irrefl : (p : Pattern) → pattern_valid p ≡ true → can_beat p p ≡ ok false
unfolding can_beat beats
can_beat_irrefl p v = ground arith

can_beat-valid :
    (p q : Pattern) (b : Bool)
    → can_beat p q ≡ ok b
    → (pattern_valid p ≡ true) × (pattern_valid q ≡ true) × (beats p q ≡ b)
unfolding can_beat
can_beat-valid p q b h = ground arith

beats_trans : (p q r : Pattern) → beats p q ≡ true → beats q r ≡ true → beats p r ≡ true
unfolding beats
beats_trans p q r h k = ground arith

-- If a pattern beats a second one and that beats a third one, the first beats the third.
pub can_beat_trans :
    (p q r : Pattern) → can_beat p q ≡ ok true → can_beat q r ≡ ok true → can_beat p r ≡ ok true
unfolding can_beat
can_beat_trans p q r h k =
    ground (arith, can_beat-valid p q true h, can_beat-valid q r true k, beats_trans p q r)
