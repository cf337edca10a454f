-- ===== src/Ledger/Changes.antt =====
-- What a `Resettable` change does to an optional field, said by its three cases, and that
-- `set_or_reset` does it.
use amaru_wear.Prelude.{◌≡◌, refl, Option, none, some}
use amaru_wear.Ledger.{LedgerKernel, IsLedgerKernel, Resettable, set, reset, unchanged}

unfoldable pub after_change : {A : Type 0} → Resettable A → Option A → Option A
after_change (set a) o = some a
after_change reset o = none
after_change unchanged o = o

unfoldable pub replaced : {A : Type 0} → Resettable A → Option A → Option A
replaced (set a) o = o
replaced reset o = o
replaced unchanged o = none

pub replaced-none : {A : Type 0} (r : Resettable A) → replaced r none ≡ none
unfolding replaced
replaced-none (set a) = refl
replaced-none reset = refl
replaced-none unchanged = refl

-- A value that is given, or else the one from before.
unfoldable pub or_before : {A : Type 0} → Option A → A → A
or_before none before = before
or_before (some a) before = a

pub set_or_reset_lem :
    (K : LedgerKernel) (N : IsLedgerKernel K) {A : Type 0} (r : Resettable A) (o : Option A)
    → K.set_or_reset r o ≡ (after_change r o, replaced r o)
unfolding after_change replaced
set_or_reset_lem K N (set a) o = N.set_replaces a o
set_or_reset_lem K N reset o = N.reset_clears o
set_or_reset_lem K N unchanged o = N.unchanged_keeps o
