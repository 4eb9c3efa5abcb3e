-- ===== src/Txs/Batch/Rounds.antt =====
-- What one round of a batch leaves of its instruction.
use libra_v.Prelude.{
  ◌≡◌, refl, sym, ap, ◌∙◌, Bool, true, false, ◌==◌, List, [], ◌∷◌, ◌++◌, Option, none, some, Text,
  Result, ok, err, ok-injective, err≢ok, subst, Bool-cases, Option-cases, inl, inr,
}
use libra_v.Platform.{Platform}
use libra_v.Genesis.BTreeMap.{BTreeMap, lookup}
use libra_v.Txs.Batch.{
  cast_decimal_to_coin, BatchError, ProposePay, Payload, Node, Sending, mark_proposed, has_voted,
  payload, note_result, propose_single, propose_or_skip, with_slow, handle_instruction,
}

module _ (p : Platform) (node : Node p) where
  -- The fields of an order, and the parsed address.
  pub record Same (a b : ProposePay p) : Type 0 where
    pub recipient_law : b.recipient ≡ a.recipient
    pub amount_law : b.amount ≡ a.amount
    pub description_law : b.description ≡ a.description
    pub note_law : b.note ≡ a.note
    pub parsed_law : b.parsed ≡ a.parsed

  -- The order is kept, and its recipient was parsed.
  pub record Filled (a b : ProposePay p) : Type 0 where
    pub recipient_law : b.recipient ≡ a.recipient
    pub amount_law : b.amount ≡ a.amount
    pub description_law : b.description ≡ a.description
    pub note_law : b.note ≡ a.note
    pub address_law :
        (addr : p.AccountAddress) × (node.parse a.recipient ≡ some addr) × (b.parsed ≡ some addr)

  record Keeps (a : ProposePay p) (r : Sending p (ProposePay p)) : Type 0 where
    holds : (b : ProposePay p) → r.1 ≡ ok b → Same a b

  same_self : (a : ProposePay p) → Same a a
  same_self a = record {
    recipient_law = refl;
    amount_law = refl;
    description_law = refl;
    note_law = refl;
    parsed_law = refl;
  }

  mark_proposed-Same :
      (found : Option (ProposePay p)) (a : ProposePay p) → Same a (mark_proposed p node found a)
  unfolding mark_proposed
  mark_proposed-Same none a = same_self a
  mark_proposed-Same (some pp) a =
      elim (Bool-cases (pp.amount == cast_decimal_to_coin p (p.of_u64 a.amount))) [
        | inl e ↦
            rw (e, mark_proposed)
              (record {
                recipient_law = refl;
                amount_law = refl;
                description_law = refl;
                note_law = refl;
                parsed_law = refl;
              })
        | inr e ↦ rw (e, mark_proposed) (same_self a)
      ]

  Keeps-ok : (a b : ProposePay p) (sent : List (Payload p)) → Same a b → Keeps a (sent, ok b)
  Keeps-ok a b sent h = record { holds = λ c same. subst (Same a) (ok-injective same) h }

  Keeps-err : (a : ProposePay p) (sent : List (Payload p)) (e : BatchError) → Keeps a (sent, err e)
  Keeps-err a sent e = record { holds = λ c same. absurd (err≢ok same) }

  note_result-Same :
      (a b : ProposePay p) (answer : Option Text) → Same a b → Same a (note_result p node answer b)
  note_result-Same a b none h = record {
    recipient_law = h.recipient_law;
    amount_law = h.amount_law;
    description_law = h.description_law;
    note_law = h.note_law;
    parsed_law = h.parsed_law;
  }
  note_result-Same a b (some e) h = record {
    recipient_law = h.recipient_law;
    amount_law = h.amount_law;
    description_law = h.description_law;
    note_law = h.note_law;
    parsed_law = h.parsed_law;
  }

  module _ (multisig : p.AccountAddress) where
    pub propose_single_lem :
        (b : ProposePay p) (addr : p.AccountAddress) (sent : List (Payload p))
        → b.parsed ≡ some addr
        → propose_single p node multisig b sent ≡ (
          sent ++ (payload p node multisig addr b ∷ []),
          ok (note_result p node (node.sign_submit_wait sent (payload p node multisig addr b)) b),
        )
    unfolding propose_single
    propose_single_lem b addr sent e = rw e refl

    propose_single-Keeps :
        (a b : ProposePay p) (sent : List (Payload p))
        → Same a b
        → Keeps a (propose_single p node multisig b sent)
    unfolding propose_single
    propose_single-Keeps a b sent h = elim (Option-cases b.parsed) [
      | inl e ↦ rw (e, propose_single) (Keeps-err a sent BatchError.panic)
      | inr (addr, e) ↦
          subst (Keeps a) (sym (propose_single_lem b addr sent e))
            (Keeps-ok a _ _ (note_result-Same a b _ h))
    ]

    module _ (check : Bool) (m : BTreeMap p (ProposePay p)) where
      propose_or_skip-Keeps :
          (slow voted : Bool) (a b : ProposePay p) (sent : List (Payload p))
          → has_voted p node b.voters ≡ voted
          → Same a b
          → Keeps a (propose_or_skip p node check multisig m slow b sent)
      unfolding propose_or_skip
      propose_or_skip-Keeps false voted a b sent e h = Keeps-ok a b sent h
      propose_or_skip-Keeps true true a b sent e h = rw (e, propose_or_skip) (Keeps-ok a b sent h)
      propose_or_skip-Keeps true false a b sent e h = elim (Bool-cases check) [
        | inl c ↦ rw (e, c, propose_or_skip) (Keeps-ok a b sent h)
        | inr c ↦ rw (e, c, propose_or_skip) (propose_single-Keeps a b sent h)
      ]

      with_slow-Keeps :
          (r : Result BatchError Bool) (a b : ProposePay p) (sent : List (Payload p))
          → Same a b
          → Keeps a (with_slow p node check multisig m r b sent)
      with_slow-Keeps (err e) a b sent h = Keeps-err a sent e
      with_slow-Keeps (ok slow) a b sent h =
          propose_or_skip-Keeps slow (has_voted p node b.voters) a
            (record b { is_slow = some slow }) sent refl
            (record {
              recipient_law = h.recipient_law;
              amount_law = h.amount_law;
              description_law = h.description_law;
              note_law = h.note_law;
              parsed_law = h.parsed_law;
            })

      filled :
          (a b : ProposePay p) (addr : p.AccountAddress)
          → node.parse a.recipient ≡ some addr
          → Same (record a { parsed = some addr }) b
          → Filled a b
      filled a b addr e h = record {
        recipient_law = h.recipient_law;
        amount_law = h.amount_law;
        description_law = h.description_law;
        note_law = h.note_law;
        address_law = (addr, e, h.parsed_law);
      }

      pub handle-Filled :
          (a b : ProposePay p) (sent : List (Payload p))
          → (handle_instruction p node check multisig m a sent).1 ≡ ok b
          → Filled a b
      unfolding handle_instruction
      handle-Filled a b sent h = elim (Option-cases (node.parse a.recipient)) [
        | inl e ↦
            let failed : (handle_instruction p node check multisig m a sent).1
                ≡ err BatchError.panic =
              rw (e, handle_instruction) refl in
            absurd (err≢ok (sym failed ∙ h))
        | inr (addr, e) ↦
            let parsed : ProposePay p = record a { parsed = some addr } in
            let marked = mark_proposed p node (lookup p addr m) parsed in
            let answer =
              with_slow p node check multisig m (node.is_slow sent a.recipient) marked sent in
            let ran : handle_instruction p node check multisig m a sent ≡ answer =
              rw (e, handle_instruction) refl in
            let kept =
              with_slow-Keeps (node.is_slow sent a.recipient) parsed marked sent
                (mark_proposed-Same (lookup p addr m) parsed) in
            filled a b addr e (kept.holds b (sym (ap (λ r. r.1) ran) ∙ h))
      ]
