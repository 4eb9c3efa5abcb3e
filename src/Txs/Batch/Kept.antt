-- ===== src/Txs/Batch/Kept.antt =====
-- What a batch leaves of the instructions of its file.
use libra_v.Prelude.{
  ◌≡◌, refl, sym, ap, ◌∙◌, Bool, List, [], ◌∷◌, ◌++◌, some, Text, Result, ok, err, ok-injective,
  err≢ok, subst, Option-cases, Result-cases, inl, inr,
}
use libra_v.Platform.{Platform}
use libra_v.Genesis.BTreeMap.{BTreeMap}
use libra_v.Txs.Batch.{
  BatchError, ProposePay, Payload, Ballot, Node, BatchTx, Sending, handle_instruction, handle_all,
  push_first, after_first, batch_run, save, out_path, with_ballots, collect_ballots,
}
use libra_v.Txs.Batch.Rounds.{Filled, handle-Filled}

module _ (p : Platform) (node : Node p) where
  abbrev pub AllFilled : List (ProposePay p) → List (ProposePay p) → Type 0
  AllFilled [] [] = Unit
  AllFilled (a ∷ list) (b ∷ list') = Filled p node a b × AllFilled list list'
  AllFilled _ _ = ⊥

  push_first-AllFilled :
      (a b : ProposePay p) (list list' : List (ProposePay p)) (q : Sending p (List (ProposePay p)))
      → Filled p node a b
      → ((l : List (ProposePay p)) → q.1 ≡ ok l → AllFilled list l)
      → (push_first p b q).1 ≡ ok list'
      → AllFilled (a ∷ list) list'
  push_first-AllFilled a b list list' (s, err e) h rest same = absurd (err≢ok same)
  push_first-AllFilled a b list list' (s, ok l) h rest same =
      subst (AllFilled (a ∷ list)) (ok-injective same) (h, rest l refl)

  after_first-AllFilled :
      (a : ProposePay p) (list list' : List (ProposePay p)) (r : Sending p (ProposePay p))
      (rest : List (Payload p) → Sending p (List (ProposePay p)))
      → ((b : ProposePay p) → r.1 ≡ ok b → Filled p node a b)
      → ((s : List (Payload p)) (l : List (ProposePay p)) → (rest s).1 ≡ ok l → AllFilled list l)
      → (after_first p r rest).1 ≡ ok list'
      → AllFilled (a ∷ list) list'
  after_first-AllFilled a list list' (s, err e) rest h hr same = absurd (err≢ok same)
  after_first-AllFilled a list list' (s, ok b) rest h hr same =
      push_first-AllFilled a b list list' (rest s) (h b refl) (hr s) same

  handle_all-AllFilled :
      (check : Bool) (multisig : p.AccountAddress) (m : BTreeMap p (ProposePay p))
      (list list' : List (ProposePay p)) (sent : List (Payload p))
      → (handle_all p node check multisig m list sent).1 ≡ ok list'
      → AllFilled list list'
  unfolding handle_all
  handle_all-AllFilled check multisig m [] list' sent h = subst (AllFilled []) (ok-injective h) tt
  handle_all-AllFilled check multisig m (a ∷ list) list' sent h =
      after_first-AllFilled a list list' (handle_instruction p node check multisig m a sent)
        (λ s. handle_all p node check multisig m list s)
        (λ b. handle-Filled p node multisig check m a b sent)
        (λ s l. handle_all-AllFilled check multisig m list l s) h

  save-ok :
      (path : Text) (r : Sending p (List (ProposePay p))) (list : List (ProposePay p))
      → (save p node path r).1 ≡ ok list
      → (r.1 ≡ ok list) × (node.write_file path list ≡ ok tt)
  save-ok path (s, err e) list h = absurd (err≢ok h)
  save-ok path (s, ok l) list h = elim (Result-cases (node.write_file path l)) [
    | inl (e, w) ↦
        let failed : (save p node path (s, ok l)).1 ≡ err e = rw (w, save) refl in
        absurd (err≢ok (sym failed ∙ h))
    | inr (tt, w) ↦
        let saved : (save p node path (s, ok l)).1 ≡ ok l = rw (w, save) refl in
        let same = ok-injective (sym saved ∙ h) in
        (ap ok same, subst (λ (x : List (ProposePay p)). node.write_file path x ≡ ok tt) same w)
  ]

  ballots-ok :
      (tx : BatchTx p node) (list list' : List (ProposePay p))
      (r : Result BatchError (List (Ballot p) × List (Ballot p)))
      → (with_ballots p node tx list r).1 ≡ ok list'
      → AllFilled list list' × (node.write_file (out_path p node tx.out tx.file) list' ≡ ok tt)
  ballots-ok tx list list' (err e) h = absurd (err≢ok h)
  ballots-ok tx list list' (ok (approved, pending)) h =
      let m = collect_ballots p node (pending ++ approved) [] in
      let (ran, saved) =
        save-ok (out_path p node tx.out tx.file)
          (handle_all p node tx.check tx.community_wallet m list []) list' h in
      (handle_all-AllFilled tx.check tx.community_wallet m list list' [] ran, saved)

  -- When a batch returns, it has read its file and saved the list that it returns, to the file for the
  -- output or else over its own. That list has the orders of the file, one by one: the recipient, the amount, the
  -- description and the note are kept, and the recipient is parsed.
  pub batch_run-AllFilled :
      (tx : BatchTx p node) (list' : List (ProposePay p))
      → (batch_run p node tx).1 ≡ ok list'
      → (list : List (ProposePay p)) × (node.read_file tx.file ≡ some list)
        × AllFilled list list'
        × (node.write_file (out_path p node tx.out tx.file) list' ≡ ok tt)
  unfolding batch_run
  batch_run-AllFilled tx list' h = elim (Option-cases (node.read_file tx.file)) [
    | inl e ↦
        let failed : (batch_run p node tx).1 ≡ err BatchError.panic = rw (e, batch_run) refl in
        absurd (err≢ok (sym failed ∙ h))
    | inr (list, e) ↦
        let ran : batch_run p node tx
            ≡ with_ballots p node tx list (node.multi_auth_ballots tx.community_wallet) =
          rw (e, batch_run) refl in
        let (kept, saved) =
          ballots-ok tx list list' (node.multi_auth_ballots tx.community_wallet)
            (sym (ap (λ r. r.1) ran) ∙ h) in
        (list, e, kept, saved)
  ]
