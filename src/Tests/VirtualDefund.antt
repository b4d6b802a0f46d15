-- ===== src/Tests/VirtualDefund.antt =====
-- A virtual defunding objective of Alice: her signature completes the final state, and she proposes
-- to take the guarantee out of her ledger.
use go_nitro.Types.Destination.{Address}
use go_nitro.State.Signature.{Signature}
use go_nitro.State.Hashing.{recover_signer}
use go_nitro.State.Signing.{address_from_secret_key}
use go_nitro.Outcome.Allocation.{total}
use go_nitro.Channel.{Channel, pre_fund_state}
use go_nitro.Protocols.VirtualDefund.{final_outcome, calculate_paid_to_bob}
use go_nitro.Protocols.VirtualDefund.Signed.{IsSigned, fully_signed_lem}
use go_nitro.Protocols.VirtualDefund.Safety.{Stage}
use go_nitro.Protocols.VirtualDefund.Defunding.{crank-VirtualDefunding}
use go_nitro.Protocols.VirtualDefund.History.{IsKept, Life-IsKept, cranks, here, next}
use go_nitro.Protocols.VirtualDefund.Payment.{
  Paid, final_outcome-total, calculate_paid_to_bob-final_state,
}
use go_nitro.Consensus.Vars
use go_nitro.Consensus.Updates
use go_nitro.Consensus.LedgerOutcome
use go_nitro.Consensus.Channel
use go_nitro.State.Signing
use go_nitro.State.Signed
use go_nitro.State.Signature
use go_nitro.State.Hashing
use go_nitro.State.Data
use go_nitro.Protocols.VirtualDefund
use go_nitro.Base.{
  arith, ok_injective, subst, sym, ◌∙◌, get_elem?, ℕ, ◌+ℤ◌, ◌-ℤ◌, ◌≡◌, ◌^◌, ◌+◌, refl, true, false,
  some, none, [], ◌∷◌, ◌++◌, pos, ok, sort, inl, inr,
}
use go_nitro.State.Data.{State, FixedPart, state_from_fixed_and_variable_part}
use go_nitro.State.Signature.{zero_signature}
use go_nitro.State.Signed.{SignedState}
use go_nitro.Outcome.Allocation.{clone_all, Allocation, normal_allocation_type}
use go_nitro.Outcome.Exit.{SingleAssetExit, clone_single}
use go_nitro.Consensus.Channel.{ConsensusChannel}
use go_nitro.Consensus.Proposal.{SignedProposal, new_remove_proposal}
use go_nitro.Protocols.{
  approved, no_effects, merge_effects, stop, virtual_defund, create_signed_state_messages,
}
use go_nitro.Protocols.Messages.{create_signed_proposal_message}
use go_nitro.Protocols.VirtualDefund.{Objective, final_state, update, fully_signed}
use go_nitro.Protocols.VirtualDefund.Crank.{Cranked, crank, waiting_for_complete_ledger_defunding}
use go_nitro.Tests.Data.{toy, toy-CurveLaws, leader_key, signature_of}
use go_nitro.Tests.Consensus.{agreed}

abbrev fixed : FixedPart
fixed = record {
  chain_id = some (pos 9001);
  participants = 11 ∷ 22 ∷ 44 ∷ [];
  channel_nonce = some (pos 7);
  app_definition = 0;
  challenge_duration = some (pos 60);
}

abbrev paid_to : ℕ → ℕ → Allocation
paid_to d x = record {
  destination = d;
  amount = pos x;
  allocation_type = normal_allocation_type;
  metadata = [];
}

abbrev exit_of : ℕ → ℕ → SingleAssetExit
exit_of a b = record { asset = 0; metadata = []; allocations = paid_to 1 a ∷ paid_to 2 b ∷ [] }

abbrev pub ledger : ConsensusChannel
ledger = record (agreed 0) {
  current = record ((agreed 0).current) {
    vars = record ((agreed 0).current.vars) {
      outcome = record ((agreed 0).current.vars.outcome) {
        guarantees =
            (
              2 ^ 255 + 3,
              record { amount = some (pos 30); target = 2 ^ 255 + 3; left = 1; right = 2 },
            )
            ∷ [];
      };
    };
  };
}

abbrev pub alice : Objective
alice = record {
  status = approved;
  initial_outcome = exit_of 20 10;
  paid_to_bob = pos 5;
  v_fixed = fixed;
  signatures = zero_signature ∷ signature_of 22 ∷ signature_of 44 ∷ [];
  to_my_left = none;
  to_my_right = some ledger;
  my_role = 0;
}

abbrev final : State
final = record {
  chain_id = fixed.chain_id;
  participants = fixed.participants;
  channel_nonce = fixed.channel_nonce;
  app_definition = 0;
  challenge_duration = some (pos 60);
  app_data = [];
  outcome = exit_of 15 15 ∷ [];
  turn_num = 2;
  is_final = true;
}

final_run : final_state alice ≡ ok final
unfolding final_state clone_single clone_all state_from_fixed_and_variable_part ◌-ℤ◌ ◌+ℤ◌
final_run = refl

abbrev signed : SignedState
signed = record {
  state = final;
  sigs = (0, signature_of 11) ∷ (1, signature_of 22) ∷ (2, signature_of 44) ∷ [];
}

abbrev proposed : SignedProposal
proposed = record {
  signature = signature_of 11;
  proposal = new_remove_proposal ledger.id (2 ^ 255 + 3) (some (pos 15));
  turn_num = 2;
}

abbrev pub asked : Cranked
asked =
    stop
      (record alice {
        signatures = signature_of 11 ∷ signature_of 22 ∷ signature_of 44 ∷ [];
        to_my_right = some (record ledger { proposal_queue = proposed ∷ [] });
      })
      (record no_effects {
        messages_to_send =
            create_signed_state_messages (record { prefix = virtual_defund; channel = 2 ^ 255 + 3 })
              signed 0
            ++ create_signed_proposal_message 22 (proposed ∷ []) ∷ [];
      })
      waiting_for_complete_ledger_defunding

pub crank_run : crank toy leader_key alice ≡ ok asked
unfolding crank VirtualDefund.clone Data.clone_fixed_part VirtualDefund.signed_by_me
    VirtualDefund.is_zero Signature.equal final_state clone_single clone_all Hashing.sign
    Hashing.hash Hashing.encode Hashing.state_channel_id Hashing.channel_id
    Signing.sign_ethereum_message Signature.split_signature VirtualDefund.signed_final_state
    Signed.add_signature Hashing.recover_signer Signing.recover_ethereum_message_signer
    Signed.new_signed_state state_from_fixed_and_variable_part Signature.join_signature
    VirtualDefund.id_of fully_signed VirtualDefund.is_alice VirtualDefund.is_bob
    VirtualDefund.is_defunded Channel.channel_includes_target LedgerOutcome.includes_target
    Channel.is_leader Channel.has_removal_been_proposed Updates.propose new_remove_proposal
    Channel.latest_proposed_vars LedgerOutcome.clone Vars.handle_proposal ◌-ℤ◌ Channel.sign
    Signing.address_from_secret_key Vars.as_state LedgerOutcome.as_outcome sort Channel.follower
    merge_effects ◌+ℤ◌
crank_run = refl

recover_run :
    (recover_signer toy final (signature_of 22) ≡ ok 22)
    × (recover_signer toy final (signature_of 44) ≡ ok 44)
unfolding recover_signer Hashing.hash Hashing.encode Hashing.state_channel_id Hashing.channel_id
    Signing.recover_ethereum_message_signer Signature.join_signature
recover_run = (refl, refl)

alice-IsSigned : IsSigned toy alice
unfolding VirtualDefund.is_zero Signature.equal
alice-IsSigned = record {
  three = refl;
  good = λ s e.
      let same = ok_injective (sym final_run ∙ e) in
      (
        inl refl,
        (
          inr (
            22,
            refl,
            subst (λ t. recover_signer toy t (signature_of 22) ≡ ok 22) same (recover_run.0),
          ),
          (
            inr (
              44,
              refl,
              subst (λ t. recover_signer toy t (signature_of 44) ≡ ok 44) same (recover_run.1),
            ),
            tt,
          ),
        ),
      );
}

key_run : address_from_secret_key toy leader_key ≡ ok 11
unfolding address_from_secret_key
key_run = refl

crank-VirtualDefunding_example : Stage toy toy-CurveLaws leader_key alice asked
crank-VirtualDefunding_example =
    crank-VirtualDefunding toy toy-CurveLaws leader_key alice 11 asked alice-IsSigned refl key_run
      refl crank_run

Life-IsKept_example : IsKept toy toy-CurveLaws leader_key alice asked.objective
Life-IsKept_example =
    Life-IsKept toy toy-CurveLaws leader_key alice asked.objective alice-IsSigned (
      next alice asked.objective asked.objective (cranks alice 11 asked key_run refl crank_run)
        (here asked.objective))

asked_final_run : final_state asked.objective ≡ ok final
unfolding final_state
asked_final_run = final_run

full_run : fully_signed asked.objective ≡ true
unfolding fully_signed VirtualDefund.is_zero Signature.equal
full_run = refl

fully_signed_lem_example :
    (sig : Signature) × (get_elem? asked.objective.signatures 1 ≡ some sig)
    × (a : Address) × (get_elem? fixed.participants 1 ≡ some a)
    × (recover_signer toy final sig ≡ ok a)
fully_signed_lem_example =
    fully_signed_lem toy asked.objective final 1 (Life-IsKept_example.signed) full_run
      asked_final_run (omega arith)

outcome_run : final_outcome alice ≡ ok (exit_of 15 15)
unfolding final_outcome clone_single clone_all ◌-ℤ◌ ◌+ℤ◌
outcome_run = refl

final_outcome-total_example :
    Paid (exit_of 20 10).allocations (exit_of 15 15).allocations (pos 5)
    × (total (exit_of 15 15).allocations ≡ total (exit_of 20 10).allocations)
    × ((exit_of 15 15).asset ≡ (exit_of 20 10).asset)
final_outcome-total_example = final_outcome-total alice (exit_of 15 15) outcome_run

-- The virtual channel of a peer.
abbrev channel : Channel
channel = record {
  id = 2 ^ 255 + 3;
  my_index = 2;
  on_chain_funding = [];
  fp = fixed;
  signed_state_for_turn_num =
      (
        0,
        record {
          state = record final { outcome = exit_of 20 10 ∷ []; turn_num = 0; is_final = false };
          sigs = [];
        },
      )
      ∷ [];
  latest_supported_state_turn_num = 0;
}

initial_run : get_elem? (pre_fund_state channel).outcome 0 ≡ some (exit_of 20 10)
unfolding pre_fund_state
initial_run = refl

calculate_paid_to_bob-final_state_example : calculate_paid_to_bob final (some channel) ≡ ok (pos 5)
calculate_paid_to_bob-final_state_example =
    calculate_paid_to_bob-final_state alice final channel final_run initial_run
