-- ===== src/Txs/Batch.antt =====
-- `ProposeTx` and `BatchTx` of tools/txs/src/txs_cli_community.rs. The files and the ballots, decoded
-- from JSON, and the answers of the node are arguments; the console is left out.
pub mod Rounds
pub mod Accounts
pub mod Sent
pub mod Kept
use libra_v.Prelude.{
  ℕ, ◌*◌, ◌^◌, Bool, true, false, not, ◌&&◌, ◌==◌, List, [], ◌∷◌, ◌++◌, Text, codes, Option, none,
  some, any, if◌then◌else◌, Result, ok, err,
}
use libra_v.Prelude.Eq.{Eq}
use libra_v.Platform.{Platform}
use libra_v.Genesis.BTreeMap.{BTreeMap, lookup}

pub data BatchError : Type 0 where
  panic query_failed not_written : BatchError

module _ (p : Platform) where
  -- `10f64.powf(6)` is the whole number 10 ^ 6.
  unfoldable pub cast_decimal_to_coin : p.F64 → ℕ
  cast_decimal_to_coin decimal = p.to_u64 (p.mul decimal (p.of_u64 (10 ^ 6)))

  pub record ProposePay : Type 0 where
    pub recipient : Text
    pub parsed : Option p.AccountAddress
    pub amount : ℕ
    pub description : Text
    pub is_slow : Option Bool
    pub proposed : Option Bool
    pub approved : Option Bool
    pub voters : Option (List p.AccountAddress)
    pub error : Option Text
    pub note : Option Text

  -- The payload `donor_voice_txs_propose_payment_tx`.
  pub record Payload : Type 0 where
    pub multisig_address : p.AccountAddress
    pub payee : p.AccountAddress
    pub value : ℕ
    pub memo : Text

  -- The fields that are read of a ballot.
  pub record Ballot : Type 0 where
    pub payee : p.AccountAddress
    pub value : ℕ
    pub votes : List p.AccountAddress
    pub is_approved : Bool

  -- What is outside the program. The answers of the node depend on what was sent before.
  pub record Node : Type 0 where
    pub sender_address : p.AccountAddress
    pub parse : Text → Option p.AccountAddress
    pub to_canonical_string : p.AccountAddress → Text
    -- No message, or that of the failure to sign, to submit or to execute.
    pub sign_submit_wait : List Payload → Payload → Option Text
    pub is_slow : List Payload → Text → Result BatchError Bool
    -- The ballots that are approved, and those that are pending.
    pub multi_auth_ballots : p.AccountAddress → Result BatchError (List Ballot × List Ballot)
    pub read_file : Text → Option (List ProposePay)
    pub write_file : Text → List ProposePay → Result BatchError (Unit {0})

  -- The payloads handed to `sign_submit_wait`, in order and whether or not it failed, and the result.
  abbrev pub Sending : Type 0 → Type 0
  Sending A = List Payload × Result BatchError A

  abbrev pub push_first : ProposePay → Sending (List ProposePay) → Sending (List ProposePay)
  push_first inst (sent, ok list) = (sent, ok (inst ∷ list))
  push_first inst (sent, err e) = (sent, err e)

  abbrev pub after_first :
      Sending ProposePay → (List Payload → Sending (List ProposePay)) → Sending (List ProposePay)
  after_first (sent, err e) rest = (sent, err e)
  after_first (sent, ok inst) rest = push_first inst (rest sent)

  module _ (node : Node) where
    unfoldable pub proposed_by : Ballot → ProposePay
    proposed_by b = record {
      recipient = node.to_canonical_string b.payee;
      parsed = some b.payee;
      amount = b.value;
      description = codes "debugging";
      is_slow = none;
      proposed = none;
      approved = some b.is_approved;
      voters = some b.votes;
      error = none;
      note = none;
    }

    -- The hash map by the recipient, the last entry first, so that a later ballot hides an earlier one.
    unfoldable pub collect_ballots : List Ballot → BTreeMap p ProposePay → BTreeMap p ProposePay
    collect_ballots [] m = m
    collect_ballots (b ∷ bs) m = collect_ballots bs ((b.payee, proposed_by b) ∷ m)

    -- An instruction that the chain has already takes the voters and the approval from there.
    unfoldable pub mark_proposed : Option ProposePay → ProposePay → ProposePay
    mark_proposed none inst = inst
    mark_proposed (some pp) inst =
        if pp.amount == cast_decimal_to_coin (p.of_u64 inst.amount)
        then record inst { proposed = some true; voters = pp.voters; approved = pp.approved }
        else inst

    abbrev pub has_voted : Option (List p.AccountAddress) → Bool
    has_voted none = false
    has_voted (some v) = any (λ a. p.account_eq.beq a node.sender_address) v

    abbrev pub payload : p.AccountAddress → p.AccountAddress → ProposePay → Payload
    payload multisig addr inst = record {
      multisig_address = multisig;
      payee = addr;
      value = cast_decimal_to_coin (p.of_u64 inst.amount);
      memo = inst.description;
    }

    abbrev pub note_result : Option Text → ProposePay → ProposePay
    note_result none inst = record inst { proposed = some true }
    note_result (some e) inst = record inst { proposed = some false; error = some e }

    -- `propose_single`, and what its result leaves in the instruction; `parsed` is unwrapped.
    unfoldable pub propose_single :
        p.AccountAddress → ProposePay → List Payload → Sending ProposePay
    propose_single multisig inst sent = elim inst.parsed [
      | none ↦ (sent, err BatchError.panic)
      | some addr ↦
          let tx = payload multisig addr inst in
          (sent ++ (tx ∷ []), ok (note_result (node.sign_submit_wait sent tx) inst))
    ]

    module _ (check : Bool) (multisig : p.AccountAddress) (m : BTreeMap p ProposePay) where
      -- After the answer of the node on the recipient: the three reasons to skip, or the proposal.
      unfoldable pub propose_or_skip : Bool → ProposePay → List Payload → Sending ProposePay
      propose_or_skip res_slow inst sent =
          if not res_slow
          then (sent, ok inst)
          else if has_voted inst.voters
          then (sent, ok inst)
          else if check
          then (sent, ok inst)
          else propose_single multisig inst sent

      abbrev pub with_slow : Result BatchError Bool → ProposePay → List Payload → Sending ProposePay
      with_slow (err e) inst sent = (sent, err e)
      with_slow (ok res_slow) inst sent =
          propose_or_skip res_slow (record inst { is_slow = some res_slow }) sent

      -- One round of the loop.
      unfoldable pub handle_instruction : ProposePay → List Payload → Sending ProposePay
      handle_instruction inst sent = elim (node.parse inst.recipient) [
        | none ↦ (sent, err BatchError.panic)
        | some addr ↦
            with_slow (node.is_slow sent inst.recipient)
              (mark_proposed (lookup p addr m) (record inst { parsed = some addr })) sent
      ]

      -- The loop over the instructions, which an error ends.
      unfoldable pub handle_all : List ProposePay → List Payload → Sending (List ProposePay)
      handle_all [] sent = (sent, ok [])
      handle_all (inst ∷ list) sent =
          after_first (handle_instruction inst sent) (λ sent'. handle_all list sent')

    pub record BatchTx : Type 0 where
      pub community_wallet : p.AccountAddress
      pub file : Text
      pub out : Option Text
      pub check : Bool

    abbrev pub out_path : Option Text → Text → Text
    out_path none file = file
    out_path (some path) file = path

    abbrev pub save : Text → Sending (List ProposePay) → Sending (List ProposePay)
    save path (sent, err e) = (sent, err e)
    save path (sent, ok list) = elim (node.write_file path list) [
      | err e ↦ (sent, err e)
      | ok saved ↦ (sent, ok list)
    ]

    abbrev pub with_ballots :
        BatchTx
        → List ProposePay
        → Result BatchError (List Ballot × List Ballot)
        → Sending (List ProposePay)
    with_ballots tx list (err e) = ([], err e)
    with_ballots tx list (ok (approved, pending)) =
        save (out_path tx.out tx.file) (
          handle_all tx.check tx.community_wallet (collect_ballots (pending ++ approved) []) list
            [])

    unfoldable pub batch_run : BatchTx → Sending (List ProposePay)
    batch_run tx = elim (node.read_file tx.file) [
      | none ↦ ([], err BatchError.panic)
      | some list ↦ with_ballots tx list (node.multi_auth_ballots tx.community_wallet)
    ]
