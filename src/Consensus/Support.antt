-- ===== src/Consensus/Support.antt =====
-- channel/consensus_channel/consensus_channel.go: copies of a channel, and the signed state that it
-- supports.
pub mod Copies
use go_nitro.Base.{
  ◌≡◌, ◌≢◌, refl, ap, sym, ◌∙◌, List, [], ◌∷◌, arith, is_panic, deref, Result, ok, err, panicked,
  ◌>>=◌, >>=-eq-ok, ok_injective, if◌then◌else◌, get_elem?,
}
use go_nitro.Types.Destination.{Address}
use go_nitro.Types.Funds
use go_nitro.State.Signature.{Signature}
use go_nitro.State.Data.{State, clone_fixed_part}
use go_nitro.State.Library.{Library}
use go_nitro.State.Hashing
use go_nitro.State.Signed.{SignedState, new_signed_state, add_signature, store_signature}
use go_nitro.State.Signed.Signers.{IsSigned}
use go_nitro.Consensus.LedgerOutcome.{as_outcome}
use go_nitro.Consensus.Proposal.{SignedProposal, clone_proposal}
use go_nitro.Consensus.Vars.{Vars, as_state}
use go_nitro.Consensus.Vars
use go_nitro.Consensus.Channel.{SignedVars, ConsensusChannel, recover_vars_signer}
use go_nitro.Consensus.Updates.Invariant.{IsValid}

-- `SignedProposal.Clone`
unfoldable pub clone_signed_proposal : SignedProposal → Result SignedProposal
clone_signed_proposal sp = do
  proposal ← clone_proposal sp.proposal
  ok (record { signature = sp.signature; proposal = proposal; turn_num = sp.turn_num })

-- `SignedVars.clone`
unfoldable pub clone_signed_vars : SignedVars → Result SignedVars
clone_signed_vars sv = do
  vars ← Vars.clone sv.vars
  ok (record {
    vars = vars;
    leader_signature = sv.leader_signature;
    follower_signature = sv.follower_signature;
  })

-- The loop of `ConsensusChannel.Clone`.
unfoldable pub clone_queue : List SignedProposal → Result (List SignedProposal)
unfolding clone_signed_proposal
clone_queue [] = ok []
clone_queue (p ∷ q) = do p' ← clone_signed_proposal p; q' ← clone_queue q; ok (p' ∷ q')

-- `ConsensusChannel.Clone`
unfoldable pub clone_channel : ConsensusChannel → Result ConsensusChannel
unfolding clone_queue clone_signed_vars
clone_channel c = do
  queue ← clone_queue c.proposal_queue
  fp ← clone_fixed_part c.fp
  current ← clone_signed_vars c.current
  ok (record {
    my_index = c.my_index;
    fp = fp;
    id = c.id;
    on_chain_funding = Funds.clone c.on_chain_funding;
    current = current;
    proposal_queue = queue;
  })

module _ (lib : Library) where
  -- `_ = ss.AddSignature(sig)`: an error is dropped, and leaves the signed state as it was.
  unfoldable pub try_signature : SignedState → Signature → Result SignedState
  try_signature ss sig = elim (add_signature lib ss sig) [
    | ok signed ↦ ok signed
    | err e ↦ if is_panic e then err panicked else ok ss
  ]

  -- `SupportedSignedState`
  unfoldable pub supported_signed_state : ConsensusChannel → Result SignedState
  unfolding try_signature
  supported_signed_state c = do
    s ← as_state c.current.vars c.fp
    one ← try_signature (new_signed_state s) c.current.leader_signature
    try_signature one c.current.follower_signature

  as_state_participants :
      (v : Vars) (c : ConsensusChannel) (s : State)
      → as_state v c.fp ≡ ok s
      → s.participants ≡ c.fp.participants
  unfolding as_state
  as_state_participants v c s e =
      let (o, _, e1) = >>=-eq-ok (as_outcome v.outcome) _ e in
      sym (ap (λ r. r.participants) (ok_injective e1))

  -- The two signatures are stored at the positions of their signers.
  two_signatures :
      (s : State) (a b : Address) (g h : Signature)
      → s.participants ≡ a ∷ b ∷ []
      → a ≢ b
      → Hashing.recover_signer lib s g ≡ ok a
      → Hashing.recover_signer lib s h ≡ ok b
      → (add_signature lib (new_signed_state s) g ≡ ok (record { state = s; sigs = (0, g) ∷ [] }))
        × (add_signature lib (record { state = s; sigs = (0, g) ∷ [] }) h
            ≡ ok (record { state = s; sigs = (0, g) ∷ (1, h) ∷ [] }))
  unfolding add_signature store_signature new_signed_state
  two_signatures s a b g h two differ ra rb =
      (rw (ra, two) (ground arith), rw (rb, two) (ground (arith, differ)))

  try_signed :
      (ss r : SignedState) (g : Signature)
      → add_signature lib ss g ≡ ok r
      → try_signature ss g ≡ ok r
  unfolding try_signature
  try_signed ss r g e = rw (try_signature, e) refl

  -- Between two different participants, the signed state that a valid ledger channel supports is
  -- its consensus state, under the signatures of both.
  pub supported_signed_state_lem :
      (c : ConsensusChannel) (a b : Address)
      → IsValid lib c
      → c.fp.participants ≡ a ∷ b ∷ []
      → a ≢ b
      → (ss : SignedState) × (supported_signed_state c ≡ ok ss)
        × (as_state c.current.vars c.fp ≡ ok ss.state)
        × (ss.sigs ≡ (0, c.current.leader_signature) ∷ (1, c.current.follower_signature) ∷ [])
        × IsSigned lib ss
  unfolding supported_signed_state recover_vars_signer
  supported_signed_state_lem c a b v two differ =
      let (s, hs, ra) = >>=-eq-ok (as_state c.current.vars c.fp) _ v.leader_signed.recovers in
      let (s', hs', rb) = >>=-eq-ok (as_state c.current.vars c.fp) _ v.follower_signed.recovers in
      let g = c.current.leader_signature in
      let h = c.current.follower_signature in
      let same : s' ≡ s = ok_injective (sym hs' ∙ hs) in
      let parts = as_state_participants c.current.vars c s hs ∙ two in
      let la : v.leader_signed.signer ≡ a =
        ok_injective (sym v.leader_signed.stands ∙ ap (λ l. deref (get_elem? l 0)) two) in
      let lb : v.follower_signed.signer ≡ b =
        ok_injective (sym v.follower_signed.stands ∙ ap (λ l. deref (get_elem? l 1)) two) in
      let recovers_a = ra ∙ ap ok la in
      let recovers_b = ap (λ x. Hashing.recover_signer lib x h) (sym same) ∙ rb ∙ ap ok lb in
      let (first, second) = two_signatures s a b g h parts differ recovers_a recovers_b in
      (
        record { state = s; sigs = (0, g) ∷ (1, h) ∷ [] },
        rw (hs, try_signed _ _ g first, try_signed _ _ h second) refl,
        hs,
        refl,
        record {
          keyed = (refl, (refl, tt));
          by = (
            record { signer = a; stands = ap (λ l. get_elem? l 0) parts; recovers = recovers_a },
            (
              record { signer = b; stands = ap (λ l. get_elem? l 1) parts; recovers = recovers_b },
              tt,
            ),
          );
        },
      )
