-- ===== src/Txs/Batch/Sent.antt =====
-- What a batch sends, against the list that it writes.
use libra_v.Prelude.{
  ◌≡◌, Bool, List, [], ◌++◌, Text, Result, ok, err, Option-cases, Result-cases, err≢ok, inl, inr,
}
use libra_v.Platform.{Platform}
use libra_v.Txs.Batch.{
  BatchError, ProposePay, Payload, Ballot, Node, BatchTx, Sending, batch_run, save, with_ballots,
  collect_ballots,
}
use libra_v.Txs.Batch.Accounts.{AllAccounts, handle_all-Accounts, submissions}

module _ (p : Platform) (node : Node p) where
  module _ (multisig : p.AccountAddress) where
    save-Accounts :
        (check : Bool) (path : Text) (sent : List (Payload p)) (r : Sending p (List (ProposePay p)))
        → AllAccounts p node check multisig sent r
        → AllAccounts p node check multisig sent (save p node path r)
    save-Accounts check path sent (s, err e) h = record { holds = λ l same. absurd (err≢ok same) }
    save-Accounts check path sent (s, ok list) h = elim (Result-cases (node.write_file path list)) [
      | inl (e, w) ↦ rw (w, save) (record { holds = λ l same. absurd (err≢ok same) })
      | inr (u, w) ↦ rw (w, save) h
    ]

  ballots-Accounts :
      (tx : BatchTx p node) (list : List (ProposePay p))
      (r : Result BatchError (List (Ballot p) × List (Ballot p)))
      → AllAccounts p node tx.check tx.community_wallet [] (with_ballots p node tx list r)
  ballots-Accounts tx list (err e) = record { holds = λ l same. absurd (err≢ok same) }
  ballots-Accounts tx list (ok (approved, pending)) =
      save-Accounts tx.community_wallet tx.check _ [] _ (
        handle_all-Accounts p node tx.community_wallet
          (collect_ballots p node (pending ++ approved) []) tx.check list [])

  run-Accounts :
      (tx : BatchTx p node)
      → AllAccounts p node tx.check tx.community_wallet [] (batch_run p node tx)
  unfolding batch_run
  run-Accounts tx = elim (Option-cases (node.read_file tx.file)) [
    | inl e ↦ rw (e, batch_run) (record { holds = λ l same. absurd (err≢ok same) })
    | inr (list, e) ↦
        rw (e, batch_run) (ballots-Accounts tx list (node.multi_auth_ballots tx.community_wallet))
  ]

  -- When a batch returns, the payloads that it has handed to `sign_submit_wait`, whether or not that
  -- failed, are those of the instructions in the list that it writes which are marked as slow and do
  -- not have the sender among their voters, each one once and in their order; a check sends none.
  pub batch_run-submissions :
      (tx : BatchTx p node) (list : List (ProposePay p))
      → (batch_run p node tx).1 ≡ ok list
      → (batch_run p node tx).0 ≡ submissions p node tx.check tx.community_wallet list
  batch_run-submissions tx list h = (run-Accounts tx).holds list h
