-- ===== src/Tests/Batch.antt =====
-- A batch of three proposals: one that is sent, one to a wallet that is not slow, and one that the
-- sender has voted for.
use libra_v.Prelude.{
  ℕ, ◌-◌, ◌*◌, ◌^◌, ◌≡◌, refl, Bool, true, false, not, ◌==◌, List, [], ◌∷◌, Text, codes, Option,
  none, some, Result, ok, err,
}
use libra_v.Txs.Batch.{
  BatchError, ProposePay, Ballot, Node, BatchTx, batch_run, handle_all, handle_instruction,
  propose_or_skip, propose_single, mark_proposed, collect_ballots, proposed_by,
  cast_decimal_to_coin, out_path,
}
use libra_v.Genesis.BTreeMap.{lookup}
use libra_v.Txs.Batch.Accounts.{submissions, sender_in}
use libra_v.Txs.Batch.Sent.{batch_run-submissions}
use libra_v.Txs.Batch.Kept.{AllFilled, batch_run-AllFilled}
use libra_v.Tests.Sample.{sample}

abbrev order : Text → ℕ → ProposePay sample
order to amount = record {
  recipient = to;
  parsed = none;
  amount = amount;
  description = codes "grant";
  is_slow = none;
  proposed = none;
  approved = none;
  voters = none;
  error = none;
  note = none;
}

abbrev first_char : Text → Option ℕ
first_char [] = none
first_char (c ∷ s) = some (c - 48)

abbrev slow_unless_two : Text → Result BatchError Bool
slow_unless_two [] = err BatchError.query_failed
slow_unless_two (c ∷ s) = ok (not (c == 50))

abbrev orders : List (ProposePay sample)
orders = order (codes "1") 7 ∷ order (codes "2") 8 ∷ order (codes "3") 9 ∷ []

abbrev ballot : Ballot sample
ballot = record { payee = 3; value = 9 * 10 ^ 6; votes = 4 ∷ []; is_approved = false }

abbrev node : Node sample
node = record {
  sender_address = 4;
  parse = first_char;
  to_canonical_string = λ a. codes "0x3";
  sign_submit_wait = λ sent tx. none;
  is_slow = λ sent to. slow_unless_two to;
  multi_auth_ballots = λ a. ok ([], ballot ∷ []);
  read_file = λ path. some orders;
  write_file = λ path list. ok tt;
}

abbrev batch : BatchTx sample node
batch = record { community_wallet = 9; file = codes "pay.json"; out = none; check = false }

abbrev written : List (ProposePay sample)
written =
    record (order (codes "1") 7) { parsed = some 1; is_slow = some true; proposed = some true }
    ∷ record (order (codes "2") 8) { parsed = some 2; is_slow = some false }
    ∷ record (order (codes "3") 9) {
      parsed = some 3;
      is_slow = some true;
      proposed = some true;
      approved = some false;
      voters = some (4 ∷ []);
    }
    ∷ []

batch_writes : (batch_run sample node batch).1 ≡ ok written
unfolding batch_run handle_all handle_instruction propose_or_skip propose_single mark_proposed
    collect_ballots proposed_by cast_decimal_to_coin lookup
batch_writes = refl

batch_run-submissions_example :
    (batch_run sample node batch).0 ≡ submissions sample node false 9 written
batch_run-submissions_example = batch_run-submissions sample node batch written batch_writes

one_submission :
    submissions sample node false 9 written
    ≡ record { multisig_address = 9; payee = 1; value = 7 * 10 ^ 6; memo = codes "grant" } ∷ []
unfolding submissions cast_decimal_to_coin sender_in
one_submission = refl

batch_run-AllFilled_example :
    (list : List (ProposePay sample)) × (node.read_file batch.file ≡ some list)
    × AllFilled sample node list written
    × (node.write_file (out_path sample node batch.out batch.file) written ≡ ok tt)
batch_run-AllFilled_example = batch_run-AllFilled sample node batch written batch_writes
