-- ===== src/Tests/Migration.antt =====
-- The repairs and the sums of the migration on a small recovery file.
use libra_v.Prelude.{map, ℕ, ◌+◌, List, [], ◌∷◌, ◌≡◌, All, retain, arith}
use libra_v.Genesis.ParseJson.{fix_slow_wallet, drop_accounts}
use libra_v.Genesis.ParseJson.Repair.{IsWithin, capped, rest_of, fix_slow_wallet-IsWithin}
use libra_v.Genesis.ParseJson.Drop.{coins, is_listed, coins-drop_accounts}
use libra_v.Genesis.Supply.{populate_supply_stats_from_legacy}
use libra_v.Genesis.Supply.Tally.{tally_all, IsBalanced}
use libra_v.Genesis.Supply.Exact.{Holds, populate_supply_exact}
use libra_v.Tests.Sample.{sample}
use libra_v.Tests.Records.{recovery}

populate_supply_exact_example :
    Holds sample (populate_supply_stats_from_legacy sample recovery) (tally_all recovery)
    × IsBalanced (tally_all recovery)
    × ((tally_all recovery).total ≡ coins recovery)
populate_supply_exact_example =
    populate_supply_exact sample recovery (omega arith)
      (tt, (omega arith, (tt, (tt, (omega arith, tt)))))

fix_slow_wallet-IsWithin_example :
    All IsWithin (fix_slow_wallet sample recovery).0
    × (map (λ e. e.slow_wallet) (fix_slow_wallet sample recovery).0 ≡ map capped recovery)
    × (map rest_of (fix_slow_wallet sample recovery).0 ≡ map rest_of recovery)
fix_slow_wallet-IsWithin_example = fix_slow_wallet-IsWithin sample recovery

-- The donor and the fund are dropped.
abbrev dropped : List ℕ
dropped = 4_661 ∷ 43_981 ∷ []

coins-drop_accounts_example :
    coins (drop_accounts sample dropped recovery)
      + coins (retain (λ e. is_listed sample dropped e.account) recovery)
    ≡ coins recovery
coins-drop_accounts_example = coins-drop_accounts sample dropped recovery
