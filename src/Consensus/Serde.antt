-- ===== src/Consensus/Serde.antt =====
-- channel/consensus_channel/serde.go: the JSON codecs of a ledger channel and its parts. A text is the
-- value that it spells: of a struct whose fields are all exported, as `Vars`, `SignedVars` and
-- `SignedProposal`, encoding/json writes and reads every field by the codec of its type.
use go_nitro.Base.{
  ℕ, ℤ, ◌≡◌, refl, Option, List, Map, map, map-map, map_values, map_values-map_values,
}
use go_nitro.Types.Destination.{Address, Destination}
use go_nitro.Types.Funds.{Funds}
use go_nitro.State.Signature.{Signature}
use go_nitro.State.Data.{FixedPart}
use go_nitro.Consensus.Guarantee.{Balance, Guarantee}
use go_nitro.Consensus.LedgerOutcome.{LedgerOutcome}
use go_nitro.Consensus.Proposal.{Add, Remove, Proposal, SignedProposal}
use go_nitro.Consensus.Channel.{SignedVars, ConsensusChannel}

-- `jsonGuarantee` and its codec
pub record JsonGuarantee : Type 0 where
  pub amount : Option ℤ
  pub target : Destination
  pub left : Destination
  pub right : Destination

abbrev pub marshal_guarantee : Guarantee → JsonGuarantee
marshal_guarantee g = record {
  amount = g.amount;
  target = g.target;
  left = g.left;
  right = g.right;
}

abbrev pub unmarshal_guarantee : JsonGuarantee → Guarantee
unmarshal_guarantee json_g = record {
  amount = json_g.amount;
  target = json_g.target;
  left = json_g.left;
  right = json_g.right;
}

-- `jsonAdd` and its codec
pub record JsonAdd : Type 0 where
  pub guarantee : JsonGuarantee
  pub left_deposit : Option ℤ

abbrev pub marshal_add : Add → JsonAdd
marshal_add a = record { guarantee = marshal_guarantee a.guarantee; left_deposit = a.left_deposit }

abbrev pub unmarshal_add : JsonAdd → Add
unmarshal_add json_a = record {
  guarantee = unmarshal_guarantee json_a.guarantee;
  left_deposit = json_a.left_deposit;
}

-- `jsonRemove` and its codec
pub record JsonRemove : Type 0 where
  pub target : Destination
  pub left_amount : Option ℤ

abbrev pub marshal_remove : Remove → JsonRemove
marshal_remove r = record { target = r.target; left_amount = r.left_amount }

abbrev pub unmarshal_remove : JsonRemove → Remove
unmarshal_remove json_r = record { target = json_r.target; left_amount = json_r.left_amount }

-- `jsonProposal` and its codec
pub record JsonProposal : Type 0 where
  pub ledger_id : Destination
  pub to_add : JsonAdd
  pub to_remove : JsonRemove

abbrev pub marshal_proposal : Proposal → JsonProposal
marshal_proposal p = record {
  ledger_id = p.ledger_id;
  to_add = marshal_add p.to_add;
  to_remove = marshal_remove p.to_remove;
}

abbrev pub unmarshal_proposal : JsonProposal → Proposal
unmarshal_proposal json_p = record {
  ledger_id = json_p.ledger_id;
  to_add = unmarshal_add json_p.to_add;
  to_remove = unmarshal_remove json_p.to_remove;
}

-- The text of a `SignedProposal`
pub record JsonSignedProposal : Type 0 where
  pub signature : Signature
  pub proposal : JsonProposal
  pub turn_num : ℕ

abbrev pub marshal_signed_proposal : SignedProposal → JsonSignedProposal
marshal_signed_proposal sp = record {
  signature = sp.signature;
  proposal = marshal_proposal sp.proposal;
  turn_num = sp.turn_num;
}

abbrev pub unmarshal_signed_proposal : JsonSignedProposal → SignedProposal
unmarshal_signed_proposal j = record {
  signature = j.signature;
  proposal = unmarshal_proposal j.proposal;
  turn_num = j.turn_num;
}

-- `jsonBalance` and its codec
pub record JsonBalance : Type 0 where
  pub destination : Destination
  pub amount : ℤ

abbrev pub marshal_balance : Balance → JsonBalance
marshal_balance b = record { destination = b.destination; amount = b.amount }

abbrev pub unmarshal_balance : JsonBalance → Balance
unmarshal_balance json_b = record { destination = json_b.destination; amount = json_b.amount }

-- `jsonLedgerOutcome` and its codec
pub record JsonLedgerOutcome : Type 0 where
  pub asset_address : Address
  pub leader : JsonBalance
  pub follower : JsonBalance
  pub guarantees : Map JsonGuarantee

unfoldable pub marshal_ledger_outcome : LedgerOutcome → JsonLedgerOutcome
unfolding map_values
marshal_ledger_outcome l = record {
  asset_address = l.asset_address;
  leader = marshal_balance l.leader;
  follower = marshal_balance l.follower;
  guarantees = map_values marshal_guarantee l.guarantees;
}

unfoldable pub unmarshal_ledger_outcome : JsonLedgerOutcome → LedgerOutcome
unfolding map_values
unmarshal_ledger_outcome json_lo = record {
  asset_address = json_lo.asset_address;
  leader = unmarshal_balance json_lo.leader;
  follower = unmarshal_balance json_lo.follower;
  guarantees = map_values unmarshal_guarantee json_lo.guarantees;
}

-- The text of `SignedVars`, with the fields of `Vars`
pub record JsonSignedVars : Type 0 where
  pub turn_num : ℕ
  pub outcome : JsonLedgerOutcome
  pub leader_signature : Signature
  pub follower_signature : Signature

abbrev pub marshal_signed_vars : SignedVars → JsonSignedVars
marshal_signed_vars sv = record {
  turn_num = sv.vars.turn_num;
  outcome = marshal_ledger_outcome sv.vars.outcome;
  leader_signature = sv.leader_signature;
  follower_signature = sv.follower_signature;
}

abbrev pub unmarshal_signed_vars : JsonSignedVars → SignedVars
unmarshal_signed_vars j = record {
  vars = record { turn_num = j.turn_num; outcome = unmarshal_ledger_outcome j.outcome };
  leader_signature = j.leader_signature;
  follower_signature = j.follower_signature;
}

-- `jsonConsensusChannel`
pub record JsonConsensusChannel : Type 0 where
  pub id : Destination
  pub on_chain_funding : Funds
  pub my_index : ℕ
  pub fp : FixedPart
  pub current : JsonSignedVars
  pub proposal_queue : List JsonSignedProposal

-- `ConsensusChannel.MarshalJSON`
unfoldable pub marshal_consensus_channel : ConsensusChannel → JsonConsensusChannel
unfolding marshal_ledger_outcome
marshal_consensus_channel c = record {
  my_index = c.my_index;
  fp = c.fp;
  id = c.id;
  on_chain_funding = c.on_chain_funding;
  current = marshal_signed_vars c.current;
  proposal_queue = map marshal_signed_proposal c.proposal_queue;
}

-- `ConsensusChannel.UnmarshalJSON`
unfoldable pub unmarshal_consensus_channel : JsonConsensusChannel → ConsensusChannel
unfolding unmarshal_ledger_outcome
unmarshal_consensus_channel json_ch = record {
  id = json_ch.id;
  on_chain_funding = json_ch.on_chain_funding;
  my_index = json_ch.my_index;
  fp = json_ch.fp;
  current = unmarshal_signed_vars json_ch.current;
  proposal_queue = map unmarshal_signed_proposal json_ch.proposal_queue;
}

outcome_again : (l : LedgerOutcome) → unmarshal_ledger_outcome (marshal_ledger_outcome l) ≡ l
unfolding marshal_ledger_outcome unmarshal_ledger_outcome
outcome_again l i = record l {
  guarantees =
      map_values-map_values marshal_guarantee unmarshal_guarantee (λ g. refl) l.guarantees i;
}

-- A ledger channel is read from its text as it was.
pub unmarshal-marshal_consensus_channel :
    (c : ConsensusChannel) → unmarshal_consensus_channel (marshal_consensus_channel c) ≡ c
unfolding marshal_consensus_channel unmarshal_consensus_channel
unmarshal-marshal_consensus_channel c i = record c {
  current = record (c.current) {
    vars = record (c.current.vars) { outcome = outcome_again c.current.vars.outcome i };
  };
  proposal_queue =
      map-map marshal_signed_proposal unmarshal_signed_proposal (λ p. refl) c.proposal_queue i;
}
