-- ===== src/Scenarios.antt =====
-- Concrete runs of every part.
mod Auction
mod Cards
mod Hands
mod Rooms
mod Live
mod Started
mod Table
mod Play
mod Points
mod Modules
use awesome_zero_platform.Base.{Result, ok, err}

-- The value of a run that succeeds, and the default of one that does not.
abbrev pub value_or : {E A : Type 0} → A → Result E A → A
value_or default (ok a) = a
value_or default (err e) = default
