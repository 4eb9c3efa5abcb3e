-- ===== src/Txs/Batch/Accounts.antt =====
-- The rounds of a batch, and the payloads that the list they leave accounts for.
use libra_v.Prelude.{
  any, ◌^◌, ◌≡◌, refl, sym, ap, ◌∙◌, Bool, true, false, not, ◌==◌, List, [], ◌∷◌, ◌++◌,
  append_assoc, append-nil, Option, none, some, Text, if◌then◌else◌, Result, ok, err, Bool-cases,
  Option-cases, ok-injective, err≢ok, subst, inl, inr,
}
use libra_v.Platform.{Platform}
use libra_v.Genesis.BTreeMap.{BTreeMap}
use libra_v.Txs.Batch.{
  cast_decimal_to_coin, BatchError, ProposePay, Payload, Node, Sending, mark_proposed, has_voted,
  payload, note_result, propose_or_skip, with_slow, handle_instruction, handle_all, push_first,
  after_first,
}
use libra_v.Txs.Batch.Rounds.{propose_single_lem}

module _ (p : Platform) (node : Node p) where
  -- The sender stands in the list.
  unfoldable pub sender_in : Option (List p.AccountAddress) → Bool
  sender_in none = false
  sender_in (some voters) = any (λ v. p.account_eq.beq v node.sender_address) voters

  -- An instruction of the written list that was sent: its recipient is slow and the sender is not
  -- among its voters.
  abbrev pub slow_and_new : ProposePay p → Bool
  slow_and_new o = elim o.is_slow [
    | none ↦ false
    | some slow ↦ if slow then not (sender_in o.voters) else false
  ]

  -- Its payload: the parsed recipient, the amount in units of 10 ^ -6 coins, and the description.
  abbrev pub payload_of : p.AccountAddress → ProposePay p → List (Payload p)
  payload_of multisig o = elim o.parsed [
    | none ↦ []
    | some addr ↦
        record {
          multisig_address = multisig;
          payee = addr;
          value = p.to_u64 (p.mul (p.of_u64 o.amount) (p.of_u64 (10 ^ 6)));
          memo = o.description;
        }
        ∷ []
  ]

  -- The payloads of these instructions, in order; a check has none.
  unfoldable pub submissions : Bool → p.AccountAddress → List (ProposePay p) → List (Payload p)
  submissions true multisig list = []
  submissions false multisig [] = []
  submissions false multisig (o ∷ list) =
      (if slow_and_new o then payload_of multisig o else []) ++ submissions false multisig list

  -- A round that returns has sent what the instruction that it leaves accounts for.
  record Accounts (check : Bool) (multisig : p.AccountAddress) (sent : List (Payload p))
      (r : Sending p (ProposePay p)) : Type 0 where
    holds : (o : ProposePay p) → r.1 ≡ ok o → r.0 ≡ sent ++ submissions check multisig (o ∷ [])

  pub record AllAccounts (check : Bool) (multisig : p.AccountAddress) (sent : List (Payload p))
      (r : Sending p (List (ProposePay p))) : Type 0 where
    pub holds :
        (list : List (ProposePay p)) → r.1 ≡ ok list → r.0 ≡ sent ++ submissions check multisig list

  module _ (multisig : p.AccountAddress) where
    submissions_nil : (check : Bool) → submissions check multisig [] ≡ []
    unfolding submissions
    submissions_nil true = refl
    submissions_nil false = refl

    submissions_cons :
        (check : Bool) (o : ProposePay p) (list : List (ProposePay p))
        → submissions check multisig (o ∷ []) ++ submissions check multisig list
          ≡ submissions check multisig (o ∷ list)
    unfolding submissions
    submissions_cons true o list = refl
    submissions_cons false o list =
        ap (λ t. t ++ submissions false multisig list)
          (append-nil (if slow_and_new o then payload_of multisig o else []))

    push-Accounts :
        (check : Bool) (sent s : List (Payload p)) (inst : ProposePay p)
        (q : Sending p (List (ProposePay p)))
        → s ≡ sent ++ submissions check multisig (inst ∷ [])
        → AllAccounts check multisig s q
        → AllAccounts check multisig sent (push_first p inst q)
    push-Accounts check sent s inst (s2, err e) h r = record {
      holds = λ l same. absurd (err≢ok same);
    }
    push-Accounts check sent s inst (s2, ok list) h r = record {
      holds = λ l same.
          let first : s2 ≡ s ++ submissions check multisig list = r.holds list refl in
          let moved : s ++ submissions check multisig list
              ≡ (sent ++ submissions check multisig (inst ∷ []))
                ++ submissions check multisig list =
            ap (λ t. t ++ submissions check multisig list) h in
          let joined =
            append_assoc sent (submissions check multisig (inst ∷ []))
              (submissions check multisig list) in
          let whole = ap (λ t. sent ++ t) (submissions_cons check inst list) in
          subst (λ (l : List (ProposePay p)). s2 ≡ sent ++ submissions check multisig l)
            (ok-injective same) (first ∙ (moved ∙ (joined ∙ whole)));
    }

    after-Accounts :
        (check : Bool) (sent : List (Payload p)) (r : Sending p (ProposePay p))
        (rest : List (Payload p) → Sending p (List (ProposePay p)))
        → Accounts check multisig sent r
        → ((s : List (Payload p)) → AllAccounts check multisig s (rest s))
        → AllAccounts check multisig sent (after_first p r rest)
    after-Accounts check sent (s, err e) rest h hr = record {
      holds = λ l same. absurd (err≢ok same);
    }
    after-Accounts check sent (s, ok inst) rest h hr =
        push-Accounts check sent s inst (rest s) (h.holds inst refl) (hr s)

    submissions_skip :
        (check : Bool) (o : ProposePay p)
        → slow_and_new o ≡ false
        → submissions check multisig (o ∷ []) ≡ []
    unfolding submissions
    submissions_skip true o h = refl
    submissions_skip false o h = rw h refl

    skip-Accounts :
        (check : Bool) (inst : ProposePay p) (sent : List (Payload p))
        → submissions check multisig (inst ∷ []) ≡ []
        → Accounts check multisig sent (sent, ok inst)
    skip-Accounts check inst sent e = record {
      holds = λ o h.
          subst (λ (x : ProposePay p). sent ≡ sent ++ submissions check multisig (x ∷ []))
            (ok-injective h) (rw e (sym (append-nil sent)));
    }

    submissions_one :
        (o : ProposePay p) (a : p.AccountAddress)
        → slow_and_new o ≡ true
        → o.parsed ≡ some a
        → submissions false multisig (o ∷ []) ≡ payload p node multisig a o ∷ []
    unfolding submissions cast_decimal_to_coin
    submissions_one o a h e = rw (h, e) refl

    sent-Accounts :
        (inst : ProposePay p) (a : p.AccountAddress) (sent : List (Payload p))
        (answer : Option Text)
        → slow_and_new inst ≡ true
        → inst.parsed ≡ some a
        → Accounts false multisig sent
            (sent ++ (payload p node multisig a inst ∷ []), ok (note_result p node answer inst))
    sent-Accounts inst a sent none h e = record {
      holds = λ o same.
          subst
            (λ (x : ProposePay p).
              sent ++ (payload p node multisig a inst ∷ [])
              ≡ sent ++ submissions false multisig (x ∷ []))
            (ok-injective same)
            (ap (λ t. sent ++ t) (sym (submissions_one (note_result p node none inst) a h e)));
    }
    sent-Accounts inst a sent (some text) h e = record {
      holds = λ o same.
          subst
            (λ (x : ProposePay p).
              sent ++ (payload p node multisig a inst ∷ [])
              ≡ sent ++ submissions false multisig (x ∷ []))
            (ok-injective same)
            (ap (λ t. sent ++ t)
              (sym (submissions_one (note_result p node (some text) inst) a h e)));
    }

    submissions_check : (list : List (ProposePay p)) → submissions true multisig list ≡ []
    unfolding submissions
    submissions_check list = refl

    sender_in-has_voted :
        (voters : Option (List p.AccountAddress)) (t : Bool)
        → has_voted p node voters ≡ t
        → sender_in voters ≡ t
    unfolding sender_in
    sender_in-has_voted none t h = h
    sender_in-has_voted (some voters) t h = h

    propose-Accounts :
        (m : BTreeMap p (ProposePay p)) (check slow voted : Bool) (inst : ProposePay p)
        (a : p.AccountAddress) (sent : List (Payload p))
        → inst.is_slow ≡ some slow
        → inst.parsed ≡ some a
        → has_voted p node inst.voters ≡ voted
        → Accounts check multisig sent (propose_or_skip p node check multisig m slow inst sent)
    unfolding propose_or_skip
    propose-Accounts m check false voted inst a sent e1 e2 e3 =
        skip-Accounts check inst sent (submissions_skip check inst (rw e1 refl))
    propose-Accounts m check true true inst a sent e1 e2 e3 = rw e3 (
        skip-Accounts check inst sent
          (submissions_skip check inst (rw (e1, sender_in-has_voted _ true e3) refl)))
    propose-Accounts m true true false inst a sent e1 e2 e3 =
        rw e3 (skip-Accounts true inst sent (submissions_check (inst ∷ [])))
    propose-Accounts m false true false inst a sent e1 e2 e3 =
        rw (e3, propose_single_lem p node multisig inst a sent e2)
          (sent-Accounts inst a sent (node.sign_submit_wait sent (payload p node multisig a inst))
            (rw (e1, sender_in-has_voted _ false e3) refl) e2)

    module _ (m : BTreeMap p (ProposePay p)) (check : Bool) where
      with_slow-Accounts :
          (r : Result BatchError Bool) (inst : ProposePay p) (a : p.AccountAddress)
          (sent : List (Payload p))
          → inst.parsed ≡ some a
          → Accounts check multisig sent (with_slow p node check multisig m r inst sent)
      with_slow-Accounts (err e) inst a sent h = record { holds = λ o same. absurd (err≢ok same) }
      with_slow-Accounts (ok slow) inst a sent h =
          propose-Accounts m check slow (has_voted p node inst.voters)
            (record inst { is_slow = some slow }) a sent refl h refl

      parsed-mark_proposed :
          (found : Option (ProposePay p)) (inst : ProposePay p)
          → (mark_proposed p node found inst).parsed ≡ inst.parsed
      unfolding mark_proposed
      parsed-mark_proposed none inst = refl
      parsed-mark_proposed (some pp) inst =
          elim (Bool-cases (pp.amount == cast_decimal_to_coin p (p.of_u64 inst.amount))) [
            | inl e ↦ rw e refl
            | inr e ↦ rw e refl
          ]

      handle-Accounts :
          (inst : ProposePay p) (sent : List (Payload p))
          → Accounts check multisig sent (handle_instruction p node check multisig m inst sent)
      unfolding handle_instruction
      handle-Accounts inst sent = elim (Option-cases (node.parse inst.recipient)) [
        | inl e ↦ rw (e, handle_instruction) (record { holds = λ o same. absurd (err≢ok same) })
        | inr (a, e) ↦
            rw (e, handle_instruction)
              (with_slow-Accounts (node.is_slow sent inst.recipient) _ a sent
                (parsed-mark_proposed _ (record inst { parsed = some a })))
      ]

      pub handle_all-Accounts :
          (list : List (ProposePay p)) (sent : List (Payload p))
          → AllAccounts check multisig sent (handle_all p node check multisig m list sent)
      unfolding handle_all submissions
      handle_all-Accounts [] sent = record {
        holds = λ l same.
            subst (λ (l : List (ProposePay p)). sent ≡ sent ++ submissions check multisig l)
              (ok-injective same) (rw (submissions_nil check) (sym (append-nil sent)));
      }
      handle_all-Accounts (inst ∷ list) sent =
          after-Accounts check sent (handle_instruction p node check multisig m inst sent)
            (λ sent'. handle_all p node check multisig m list sent') (handle-Accounts inst sent)
            (λ sent'. handle_all-Accounts list sent')
