-- ===== src/Store/Serde.antt =====
-- serde.go of protocols/directfund, directdefund, virtualfund and virtualdefund: what an objective
-- keeps in its JSON text. A text is the value that it spells, `null` is none. The texts of channels
-- and ledgers are those of Channel/Serde and Consensus/Serde.
use go_nitro.Base.{ℕ, Bool, Option, none, some, List, [], ℤ, pos, ◌==◌, if◌then◌else◌}
use go_nitro.Types.Destination.{Destination}
use go_nitro.Types.Funds.{Funds}
use go_nitro.Outcome.Exit.{SingleAssetExit}
use go_nitro.State.Signature.{Signature, zero_signature}
use go_nitro.State.Data.{FixedPart}
use go_nitro.Channel.{Channel}
use go_nitro.Consensus.Channel.{ConsensusChannel}
use go_nitro.Consensus.Serde.{
  JsonConsensusChannel, marshal_consensus_channel, unmarshal_consensus_channel,
}
use go_nitro.Protocols.{ObjectiveStatus}
use go_nitro.Protocols.DirectFund
use go_nitro.Protocols.DirectDefund
use go_nitro.Protocols.VirtualFund
use go_nitro.Protocols.VirtualDefund
use go_nitro.Protocols.VirtualFund.Ledgers.{Connection, GuaranteeInfo}

abbrev pub zero_fixed_part : FixedPart
zero_fixed_part = record {
  chain_id = none;
  participants = [];
  channel_nonce = none;
  app_definition = 0;
  challenge_duration = none;
}

-- `&channel.Channel{}` with an identifier.
abbrev pub channel_with_id : Destination → Channel
channel_with_id id = record {
  id = id;
  my_index = 0;
  on_chain_funding = [];
  fp = zero_fixed_part;
  signed_state_for_turn_num = [];
  latest_supported_state_turn_num = 0;
}

-- `&consensus_channel.ConsensusChannel{}` with an identifier.
abbrev pub ledger_with_id : Destination → ConsensusChannel
ledger_with_id id = record {
  my_index = 0;
  fp = zero_fixed_part;
  id = id;
  on_chain_funding = [];
  current = record {
    vars = record {
      turn_num = 0;
      outcome = record {
        asset_address = 0;
        leader = record { destination = 0; amount = pos 0 };
        follower = record { destination = 0; amount = pos 0 };
        guarantees = [];
      };
    };
    leader_signature = zero_signature;
    follower_signature = zero_signature;
  };
  proposal_queue = [];
}

pub record JsonDirectFund : Type 0 where
  pub status : ObjectiveStatus
  pub c : Destination
  pub my_deposit_safety_threshold : Funds
  pub my_deposit_target : Funds
  pub fully_funded_threshold : Funds
  pub latest_block_number : ℕ
  pub transaction_submitted : Bool

unfoldable pub marshal_direct_fund : DirectFund.Objective → JsonDirectFund
marshal_direct_fund o = record {
  status = o.status;
  c = o.c.id;
  my_deposit_safety_threshold = o.my_deposit_safety_threshold;
  my_deposit_target = o.my_deposit_target;
  fully_funded_threshold = o.fully_funded_threshold;
  latest_block_number = o.latest_block_number;
  transaction_submitted = o.transaction_submitted;
}

unfoldable pub unmarshal_direct_fund : JsonDirectFund → DirectFund.Objective
unmarshal_direct_fund j = record {
  status = j.status;
  c = channel_with_id j.c;
  my_deposit_safety_threshold = j.my_deposit_safety_threshold;
  my_deposit_target = j.my_deposit_target;
  fully_funded_threshold = j.fully_funded_threshold;
  latest_block_number = j.latest_block_number;
  transaction_submitted = j.transaction_submitted;
}

pub record JsonDirectDefund : Type 0 where
  pub status : ObjectiveStatus
  pub c : Destination
  pub final_turn_num : ℕ
  pub transaction_submitted : Bool

unfoldable pub marshal_direct_defund : DirectDefund.Objective → JsonDirectDefund
marshal_direct_defund o = record {
  status = o.status;
  c = o.c.id;
  final_turn_num = o.final_turn_num;
  transaction_submitted = o.transaction_submitted;
}

unfoldable pub unmarshal_direct_defund : JsonDirectDefund → DirectDefund.Objective
unmarshal_direct_defund j = record {
  status = j.status;
  c = channel_with_id j.c;
  final_turn_num = j.final_turn_num;
  transaction_submitted = j.transaction_submitted;
}

pub record JsonConnection : Type 0 where
  pub channel : Destination
  pub guarantee_info : GuaranteeInfo

-- A nil connection is `null`.
abbrev pub marshal_connection : Option Connection → Option JsonConnection
marshal_connection none = none
marshal_connection (some c) =
    some (record { channel = c.channel.id; guarantee_info = c.guarantee_info })

-- A connection to a channel with the zero identifier becomes nil again.
abbrev pub unmarshal_connection : Option JsonConnection → Option Connection
unmarshal_connection none = none
unmarshal_connection (some j) =
    if j.channel == 0
    then none
    else some (record { channel = ledger_with_id j.channel; guarantee_info = j.guarantee_info })

pub record JsonVirtualFund : Type 0 where
  pub status : ObjectiveStatus
  pub v : Destination
  pub to_my_left : Option JsonConnection
  pub to_my_right : Option JsonConnection
  pub n : ℕ
  pub my_role : ℕ
  pub a0 : Funds
  pub b0 : Funds

unfoldable pub marshal_virtual_fund : VirtualFund.Objective → JsonVirtualFund
marshal_virtual_fund o = record {
  status = o.status;
  v = o.v.id;
  to_my_left = marshal_connection o.to_my_left;
  to_my_right = marshal_connection o.to_my_right;
  n = o.n;
  my_role = o.my_role;
  a0 = o.a0;
  b0 = o.b0;
}

unfoldable pub unmarshal_virtual_fund : JsonVirtualFund → VirtualFund.Objective
unmarshal_virtual_fund j = record {
  status = j.status;
  v = channel_with_id j.v;
  to_my_left = unmarshal_connection j.to_my_left;
  to_my_right = unmarshal_connection j.to_my_right;
  n = j.n;
  my_role = j.my_role;
  a0 = j.a0;
  b0 = j.b0;
}

-- The texts of the ledgers stand in it.
pub record JsonVirtualDefund : Type 0 where
  pub status : ObjectiveStatus
  pub v_fixed : FixedPart
  pub initial_outcome : SingleAssetExit
  pub signatures : List Signature
  pub paid_to_bob : ℤ
  pub to_my_left : Option JsonConsensusChannel
  pub to_my_right : Option JsonConsensusChannel
  pub my_role : ℕ

-- The text of a ledger, `null` for nil.
abbrev pub marshal_ledger : Option ConsensusChannel → Option JsonConsensusChannel
marshal_ledger none = none
marshal_ledger (some c) = some (marshal_consensus_channel c)

unfoldable pub marshal_virtual_defund : VirtualDefund.Objective → JsonVirtualDefund
marshal_virtual_defund o = record {
  status = o.status;
  v_fixed = o.v_fixed;
  initial_outcome = o.initial_outcome;
  signatures = o.signatures;
  paid_to_bob = o.paid_to_bob;
  to_my_left = marshal_ledger o.to_my_left;
  to_my_right = marshal_ledger o.to_my_right;
  my_role = o.my_role;
}

-- `ConsensusChannel.UnmarshalJSON` into a new ledger. Reading `null` leaves the zero ledger, which
-- is not nil.
abbrev pub unmarshal_ledger : Option JsonConsensusChannel → ConsensusChannel
unmarshal_ledger none = ledger_with_id 0
unmarshal_ledger (some j) = unmarshal_consensus_channel j

unfoldable pub unmarshal_virtual_defund : JsonVirtualDefund → VirtualDefund.Objective
unmarshal_virtual_defund j = record {
  status = j.status;
  initial_outcome = j.initial_outcome;
  paid_to_bob = j.paid_to_bob;
  v_fixed = j.v_fixed;
  signatures = j.signatures;
  to_my_left = some (unmarshal_ledger j.to_my_left);
  to_my_right = some (unmarshal_ledger j.to_my_right);
  my_role = j.my_role;
}
