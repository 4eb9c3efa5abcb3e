-- ===== src/Tests/Records.antt =====
-- A small recovery file: a slow wallet that has unlocked too much, a community wallet, a donor and
-- an account of the system.
use libra_v.Prelude.{ℕ, some, List, [], ◌∷◌}
use libra_v.Compat.LegacyRecovery.{LegacyRecoveryV6, default_recovery, system}
use libra_v.Tests.Sample.{sample}

abbrev pub Entry : Type 0
Entry = LegacyRecoveryV6 sample

abbrev pub entry : ℕ → ℕ → Entry
entry account coin = record (default_recovery sample) {
  account = some account;
  balance = some (record { coin = coin });
}

abbrev pub slow : ℕ → ℕ → ℕ → Entry
slow account coin unlocked = record (entry account coin) {
  slow_wallet = some (record { unlocked = unlocked; transferred = 0 });
}

abbrev pub alice : Entry
alice = slow 4_660 1_000 1_500

abbrev pub carol : Entry
carol = slow 4_662 900 300

abbrev pub fund : Entry
fund = record (entry 43_981 70) {
  cumulative_deposits = some (record { value = 70; index = 70; depositors = [] });
}

abbrev pub donor : Entry
donor = record (entry 4_661 5) {
  receipts = some (record {
    destination = 43_981 ∷ 99 ∷ [];
    cumulative = 60 ∷ 7 ∷ [];
    last_payment_timestamp = 0 ∷ 0 ∷ [];
    last_payment_value = 60 ∷ 7 ∷ [];
  });
}

abbrev pub root : Entry
root = record (entry 1 0) { role = system }

abbrev pub recovery : List Entry
recovery = root ∷ alice ∷ fund ∷ donor ∷ carol ∷ []
