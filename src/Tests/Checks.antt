-- ===== src/Tests/Checks.antt =====
-- The check of the validators of a genesis on a small set.
use libra_v.Prelude.{ℕ, some, List, [], ◌∷◌, ◌≡◌, refl, ok}
use libra_v.Genesis.Compare.Checks.{contains_address, get_val_set, check_each, check_val_set}
use libra_v.Genesis.Compare.Checks.Validators.{Within, check_val_set-Within}
use libra_v.Tests.Sample.{sample}

abbrev expected : List ℕ
expected = 5 ∷ 7 ∷ []

abbrev on_chain : List ℕ
on_chain = 7 ∷ 5 ∷ []

passes : check_val_set sample expected (some (some on_chain)) ≡ ok tt
unfolding check_val_set get_val_set check_each
passes = refl

check_val_set-Within_example :
    Within sample expected on_chain
    × (contains_address sample on_chain 9 ≡ contains_address sample expected 9)
check_val_set-Within_example =
    check_val_set-Within sample expected on_chain 9 (refl, (refl, tt)) passes
