-- ===== src/Consensus/Vars.antt =====
-- channel/consensus_channel/consensus_channel.go: the turn number and the outcome, and what a
-- proposal does to them. A call that fails leaves the receiver as it was: every check stands
-- before the first assignment.
pub mod Funds
pub mod RoundTrip
use go_nitro.Base.{
  ℕ, ◌+◌, ◌%◌, ◌^◌, Bool, false, List, [], ◌==◌, if◌then◌else◌, ℤ, ◌+ℤ◌, ◌-ℤ◌, ltb_ℤ, lookup,
  insert, erase, has_key, Result, ok, fail_if, or_fail, deref, duplicate_guarantee, invalid_deposit,
  insufficient_funds, guarantee_not_found, invalid_amount, ◌>>=◌, ◌>>◌,
}
use go_nitro.State.Data.{State, FixedPart}
use go_nitro.Consensus.Guarantee.{Balance, Guarantee}
use go_nitro.Consensus.LedgerOutcome.{LedgerOutcome, as_outcome}
use go_nitro.Consensus.LedgerOutcome
use go_nitro.Consensus.Proposal.{
  Add, Remove, Proposal, add_proposal, remove_proposal, type_of, right_deposit,
}

pub record Vars : Type 0 where
  pub turn_num : ℕ
  pub outcome : LedgerOutcome

-- `n + 1` on `uint64`
abbrev pub next_turn : ℕ → ℕ
next_turn n = (n + 1) % 2 ^ 64

-- `Vars.Clone`
unfoldable pub clone : Vars → Result Vars
clone v = do o ← LedgerOutcome.clone v.outcome; ok (record { turn_num = v.turn_num; outcome = o })

-- A balance after `amount.Add(amount, x)`, and after `amount.Sub(amount, x)`.
abbrev pub credit : Balance → ℤ → Balance
credit b x = record b { amount = b.amount +ℤ x }

abbrev pub debit : Balance → ℤ → Balance
debit b x = record b { amount = b.amount -ℤ x }

-- `Vars.Add`
unfoldable pub add : Vars → Add → Result Vars
unfolding right_deposit
add vars p = do
  let o = vars.outcome
  fail_if (has_key p.guarantee.target o.guarantees) duplicate_guarantee
  left ← deref p.left_deposit
  amount ← deref p.guarantee.amount
  fail_if (ltb_ℤ amount left) invalid_deposit
  fail_if (ltb_ℤ o.leader.amount left) insufficient_funds
  right ← right_deposit p
  fail_if (ltb_ℤ o.follower.amount right) insufficient_funds
  ok (record {
    turn_num = next_turn vars.turn_num;
    outcome = record o {
      leader = debit o.leader left;
      follower = debit o.follower right;
      guarantees = insert p.guarantee.target p.guarantee o.guarantees;
    };
  })

-- `Vars.Remove`
unfoldable pub remove : Vars → Remove → Result Vars
remove vars p = do
  let o = vars.outcome
  guarantee ← or_fail (lookup p.target o.guarantees) guarantee_not_found
  left ← deref p.left_amount
  amount ← deref guarantee.amount
  fail_if (ltb_ℤ amount left) invalid_amount
  let right = amount -ℤ left
  let is_left = o.leader.destination == guarantee.left
  ok (record {
    turn_num = next_turn vars.turn_num;
    outcome = record o {
      leader = credit o.leader (if is_left then left else right);
      follower = credit o.follower (if is_left then right else left);
      guarantees = erase p.target o.guarantees;
    };
  })

-- `Vars.HandleProposal`
unfoldable pub handle_proposal : Vars → Proposal → Result Vars
unfolding add remove type_of
handle_proposal vars p = elim (type_of p) [
  | add_proposal ↦ add vars p.to_add
  | remove_proposal ↦ remove vars p.to_remove
]

-- `Vars.AsState`
unfoldable pub as_state : Vars → FixedPart → Result State
as_state v fp = do
  outcome ← as_outcome v.outcome
  ok (record {
    chain_id = fp.chain_id;
    participants = fp.participants;
    channel_nonce = fp.channel_nonce;
    app_definition = fp.app_definition;
    challenge_duration = fp.challenge_duration;
    app_data = [];
    outcome = outcome;
    turn_num = v.turn_num;
    is_final = false;
  })
