-- ===== src/Tests/Session.antt =====
-- The two copies of a ledger channel, and what it supports, at concrete inputs.
use go_nitro.Base.{◌≡◌, refl, some, [], ◌∷◌, pos, ok, arith, lookup}
use go_nitro.Types.Destination.{Destination}
use go_nitro.State.Signed.{SignedState}
use go_nitro.State.Signed.Signers.{IsSigned}
use go_nitro.Consensus.Guarantee.{Guarantee}
use go_nitro.Consensus.LedgerOutcome.{LedgerOutcome, as_outcome}
use go_nitro.Consensus.LedgerOutcome.Order.{as_outcome_same}
use go_nitro.Consensus.Vars.{as_state}
use go_nitro.Consensus.Channel.{ConsensusChannel}
use go_nitro.Consensus.Updates.{follower_receive, leader_receive}
use go_nitro.Consensus.Updates.Session.{Mirrors, propose_delivered, countersigned_delivered}
use go_nitro.Consensus.Support.{supported_signed_state, supported_signed_state_lem}
use go_nitro.Tests.Data.{toy, toy-CurveLaws, leader_key, follower_key, signature_of, fixed}
use go_nitro.Tests.Consensus.{
  start, pending, agreed, signed, countersigned, addition, propose_run, sign_next_proposal_run,
  start-IsValid,
}

propose_delivered_example :
    (f' : ConsensusChannel) × (follower_receive toy (start 1) signed ≡ ok f')
    × Mirrors (pending 0) f'
propose_delivered_example =
    propose_delivered toy (start 0) (start 1) (pending 0) addition leader_key signed toy-CurveLaws
      (record { leads = refl; funding = []; copied = refl }) propose_run

countersigned_delivered_example :
    (l' : ConsensusChannel) × (leader_receive toy (pending 0) countersigned ≡ ok l')
    × Mirrors l' (agreed 1)
countersigned_delivered_example =
    countersigned_delivered toy (pending 0) (pending 1) (agreed 1) addition follower_key
      countersigned toy-CurveLaws (record { leads = refl; funding = []; copied = refl })
      (omega arith) sign_next_proposal_run

supported_signed_state_lem_example :
    (ss : SignedState) × (supported_signed_state toy (start 0) ≡ ok ss)
    × (as_state (start 0).current.vars fixed ≡ ok ss.state)
    × (ss.sigs ≡ (0, signature_of 11) ∷ (1, signature_of 22) ∷ [])
    × IsSigned toy ss
supported_signed_state_lem_example =
    supported_signed_state_lem toy (start 0) 11 22 (start-IsValid 0) refl (omega arith)

abbrev one : Guarantee
one = record { amount = some (pos 3); target = 5; left = 1; right = 2 }

abbrev two : Guarantee
two = record { amount = some (pos 4); target = 4; left = 1; right = 2 }

abbrev both : LedgerOutcome
both = record {
  asset_address = 0;
  leader = record { destination = 1; amount = pos 100 };
  follower = record { destination = 2; amount = pos 50 };
  guarantees = (5, one) ∷ (4, two) ∷ [];
}

either_order :
    (k : Destination) → lookup k ((5, one) ∷ (4, two) ∷ []) ≡ lookup k ((4, two) ∷ (5, one) ∷ [])
either_order k = ground arith

as_outcome_same_example :
    as_outcome both ≡ as_outcome (record both { guarantees = (4, two) ∷ (5, one) ∷ [] })
as_outcome_same_example =
    as_outcome_same both ((4, two) ∷ (5, one) ∷ []) (refl, (refl, tt)) (refl, (refl, tt))
      either_order
