-- ===== src/Types/Pledge.antt =====
-- types/src/core_types/pledge.rs: the pledges of a user. The console is left out of the dialogue:
-- the user's answer is an argument, and so is the chain of the environment (MODE_0L).
use libra_v.Prelude.{
  ℕ, [], ◌++◌, Bool, true, false, Text, Bytes, codes, text_eq, ◌==◌, if◌then◌else◌, Result, ok, err,
}
use libra_v.Platform.{Platform}

pub record Pledge : Type 0 where
  pub id : ℕ
  pub name : Text
  pub version : ℕ
  pub hash : Bytes
  pub question : Text
  pub preamble : Text
  pub on_chain : Bool

-- The assertion that fails for an index above 1.
pub data PledgePanic : Type 0 where
  pledge_index_not_found : PledgePanic

module _ (p : Platform) where
  unfoldable pub to_hash : Pledge → Pledge
  to_hash self = record self { hash = p.sha3_256_of (self.question ++ self.preamble) }

  unfoldable pub pledge_protect_the_game : Pledge
  unfolding to_hash
  pledge_protect_the_game = to_hash (record {
    id = 0;
    name = codes "Protect the Game";
    version = 0;
    question = codes "Do you pledge to not damage the game and never cheat other users?";
    preamble =
        codes
          "Code is not law at Open Libra. The law is law. The law comes from history.\n\nI understand written and unwritten laws come from social norms. I will refer to the expectations of this community based on canonical instructions, code documentation, and common sense to know when I'm cheating at the game, or otherwise unlawfully disadvantaging someone for my benefit.\n\nCheating can include, but is not limited to: gaining an advantage in a way that would be impossible unless it was covert, dishonest, untrue, or otherwise using an expected common courtesy others have extended to me which I'm not willing to return.";
    hash = [];
    on_chain = false;
  })

  unfoldable pub pledge_validator : Pledge
  unfolding to_hash
  pledge_validator = to_hash (record {
    id = 1;
    name = codes "Operate in Good Faith";
    version = 0;
    question =
        codes "Do you pledge to be a validator that acts in good faith to secure the network?";
    preamble =
        codes
          "When taking this pledge you are also taking the Protect the Game pledge:\n'I pledge to not damage the game and never cheat other users'.\n\nAdditionally you pledge to: obey the blockchain's policies as intended, some of which may be encoded as smart contracts, not pretend to be multiple people (sybil), not change the blockchain settings or software without consulting the community, run the blockchain security software (e.g validator, and fullnode software) as intended and in its entirety.";
    hash = [];
    on_chain = false;
  })

  unfoldable pub check_pledge_hash : ℕ → Bytes → Result PledgePanic Bool
  check_pledge_hash pledge_idx bytes =
      if pledge_idx == 0
      then ok (text_eq bytes pledge_protect_the_game.hash)
      else if pledge_idx == 1
      then ok (text_eq bytes pledge_validator.hash)
      else err pledge_index_not_found

  unfoldable pub pledge_dialogue : p.NamedChain → Bool → Pledge → Bool
  pledge_dialogue mode_0l answer self = if p.chain_eq.beq mode_0l p.mainnet then answer else true
