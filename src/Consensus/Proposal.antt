-- ===== src/Consensus/Proposal.antt =====
-- channel/consensus_channel/consensus_channel.go: proposals. The deposit of an addition and the
-- amount of a removal are pointers.
use go_nitro.Base.{
  ℕ, Bool, true, false, ◌&&◌, Option, none, some, ◌==◌, if◌then◌else◌, ℤ, ◌-ℤ◌, Result, ok, deref,
  ◌>>=◌,
}
use go_nitro.Types.Destination.{Destination}
use go_nitro.State.Data.{equal_pointers}
use go_nitro.State.Signature.{Signature}
use go_nitro.Consensus.Guarantee.{Guarantee, zero_guarantee, clone_guarantee, equal_guarantee}

pub record Add : Type 0 where
  pub guarantee : Guarantee
  pub left_deposit : Option ℤ

pub record Remove : Type 0 where
  pub target : Destination
  pub left_amount : Option ℤ

pub record Proposal : Type 0 where
  pub ledger_id : Destination
  pub to_add : Add
  pub to_remove : Remove

pub record SignedProposal : Type 0 where
  pub signature : Signature
  pub proposal : Proposal
  pub turn_num : ℕ

abbrev pub zero_add : Add
zero_add = record { guarantee = zero_guarantee; left_deposit = none }

abbrev pub zero_remove : Remove
zero_remove = record { target = 0; left_amount = none }

pub data ProposalType : Type 0 where
  add_proposal remove_proposal : ProposalType

abbrev pub is_nil : Option ℤ → Bool
is_nil none = true
is_nil (some x) = false

-- `p.ToAdd == Add{}`: pointers are equal to nil only if they are nil.
abbrev pub is_zero_add : Add → Bool
is_zero_add a =
    is_nil a.guarantee.amount
    && (a.guarantee.target == 0
        && (a.guarantee.left == 0 && (a.guarantee.right == 0 && is_nil a.left_deposit)))

-- `Proposal.Type`
unfoldable pub type_of : Proposal → ProposalType
type_of p = if is_zero_add p.to_add then remove_proposal else add_proposal

-- `Proposal.Target`
unfoldable pub target_of : Proposal → Destination
target_of p = elim (type_of p) [
  | add_proposal ↦ p.to_add.guarantee.target
  | remove_proposal ↦ p.to_remove.target
]

-- `Add.Clone`
unfoldable pub clone_add : Add → Result Add
clone_add a = elim a.left_deposit [
  | none ↦ ok zero_add
  | some deposit ↦ do
    g ← clone_guarantee a.guarantee
    ok (record { guarantee = g; left_deposit = some deposit })
]

-- `Remove.Clone`
unfoldable pub clone_remove : Remove → Remove
clone_remove r = elim r.left_amount [
  | none ↦ zero_remove
  | some amount ↦ record { target = r.target; left_amount = some amount }
]

-- `Proposal.Clone`
unfoldable pub clone_proposal : Proposal → Result Proposal
unfolding clone_add clone_remove
clone_proposal p = do
  a ← clone_add p.to_add
  ok (record { ledger_id = p.ledger_id; to_add = a; to_remove = clone_remove p.to_remove })

-- `Add.equal`
unfoldable pub equal_add : Add → Add → Bool
equal_add a b =
    equal_guarantee a.guarantee b.guarantee && equal_pointers a.left_deposit b.left_deposit

-- `Remove.equal`
unfoldable pub equal_remove : Remove → Remove → Bool
equal_remove r s = r.target == s.target && equal_pointers r.left_amount s.left_amount

-- `Proposal.Equal`
unfoldable pub equal_proposal : Proposal → Proposal → Bool
unfolding equal_add equal_remove
equal_proposal p q =
    p.ledger_id == q.ledger_id
    && (equal_add p.to_add q.to_add && equal_remove p.to_remove q.to_remove)

-- `NewAddProposal`
unfoldable pub new_add_proposal : Destination → Guarantee → Option ℤ → Proposal
new_add_proposal ledger_id g left_deposit = record {
  ledger_id = ledger_id;
  to_add = record { guarantee = g; left_deposit = left_deposit };
  to_remove = zero_remove;
}

-- `NewRemoveProposal`
unfoldable pub new_remove_proposal : Destination → Destination → Option ℤ → Proposal
new_remove_proposal ledger_id target left_amount = record {
  ledger_id = ledger_id;
  to_add = zero_add;
  to_remove = record { target = target; left_amount = left_amount };
}

-- `Add.RightDeposit`
unfoldable pub right_deposit : Add → Result ℤ
right_deposit a = do
  amount ← deref a.guarantee.amount
  left ← deref a.left_deposit
  ok (amount -ℤ left)
