-- ===== src/Base/Trio.antt =====
-- Go's `[3]T` indexed by a seat number: seat 1 is the first entry.
use Prim.Native.Nat.{ℕ}
use awesome_zero_platform.Base.Tests.{◌==◌, if◌then◌else◌}

pub record Trio {ℓ} (A : Type ℓ) : Type ℓ where
  pub first : A
  pub second : A
  pub third : A

module _ {ℓ} {A : Type ℓ} where
  abbrev pub all_seats : A → Trio A
  all_seats a = record { first = a; second = a; third = a }

  -- `t[seat-1]`. A caller has checked that the seat is 1, 2 or 3.
  abbrev pub at_seat : Trio A → ℕ → A
  at_seat t s = if s == 1 then t.first else if s == 2 then t.second else t.third

  abbrev pub set_seat : Trio A → ℕ → A → Trio A
  set_seat t s a =
      if s == 1
      then record t { first = a }
      else if s == 2
      then record t { second = a }
      else record t { third = a }

  abbrev pub map_trio {κ} : {B : Type κ} → (A → B) → Trio A → Trio B
  map_trio f t = record { first = f t.first; second = f t.second; third = f t.third }
