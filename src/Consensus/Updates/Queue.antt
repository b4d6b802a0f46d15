-- ===== src/Consensus/Updates/Queue.antt =====
-- What a queue of signed proposals means: each follows from the one before, and the leader has
-- signed the vars that it leads to.
use go_nitro.Base.{
  ℕ, ◌≡◌, refl, ap, ◌∙◌, false, not, ◌==◌, List, [], ◌∷◌, ◌++◌, ok, fail_if, fail_if-eq-ok,
  >>=-eq-ok, ok_injective, arith, wrong_signing_address,
}
use go_nitro.Types.Destination.{Address, Destination, Bytes}
use go_nitro.State.Signature.{Signature}
use go_nitro.State.Data.{FixedPart}
use go_nitro.State.Library.{Library}
use go_nitro.State.Signing.{address_from_secret_key}
use go_nitro.State.Recovery.{CurveLaws, recover_signer-sign}
use go_nitro.Consensus.LedgerOutcome.{LedgerOutcome}
use go_nitro.Consensus.LedgerOutcome
use go_nitro.Consensus.LedgerOutcome.Copy.{clone-eq}
use go_nitro.Consensus.Proposal.{SignedProposal}
use go_nitro.Consensus.Vars.{Vars, handle_proposal, as_state}
use go_nitro.Consensus.Channel.{
  ConsensusChannel, participant, leader_index, candidate, apply_queue, recover_vars_signer, sign,
}

pub candidate-eq : (c : ConsensusChannel) (v : Vars) → candidate c ≡ ok v → c.current.vars ≡ v
unfolding candidate
candidate-eq c v h =
    let (o, p, q) = >>=-eq-ok (LedgerOutcome.clone c.current.vars.outcome) _ h in
    (λ i. record (c.current.vars) { outcome = clone-eq c.current.vars.outcome o p i })
    ∙ ok_injective q

pub not-equal : (a b : ℕ) → not (a == b) ≡ false → a ≡ b
not-equal a b h = ground arith

module _ (lib : Library) (fp : FixedPart) where
  -- The signature on the vars recovers to the participant at the position.
  pub record SignedBy (i : ℕ) (v : Vars) (sig : Signature) : Type 0 where
    pub signer : Address
    pub stands : participant fp i ≡ ok signer
    pub recovers : recover_vars_signer lib fp v sig ≡ ok signer

  -- The queue can be applied from the vars on: each proposal is for the channel, is handled, has
  -- the turn number that it leads to, and bears the leader's signature on what it leads to.
  abbrev pub Queued : Destination → Vars → List SignedProposal → Type 0
  Queued id v [] = Unit
  Queued id v (p ∷ q) =
      (w : Vars) × (handle_proposal v p.proposal ≡ ok w)
      × (p.turn_num ≡ w.turn_num)
      × (p.proposal.ledger_id ≡ id)
      × SignedBy leader_index w p.signature
      × Queued id w q

  -- Such a queue is applied without an error.
  pub apply_queue_total :
      (id : Destination) (v : Vars) (q : List SignedProposal)
      → Queued id v q
      → (w : Vars) × (apply_queue v q ≡ ok w)
  unfolding apply_queue
  apply_queue_total id v [] h = (v, refl)
  apply_queue_total id v (p ∷ q) (w, e, _, _, _, rest) = rw e (apply_queue_total id w q rest)

  -- A signed proposal that follows from the last one extends the queue.
  pub Queued-append :
      (id : Destination) (v u w : Vars) (q : List SignedProposal) (p : SignedProposal)
      → Queued id v q
      → apply_queue v q ≡ ok u
      → handle_proposal u p.proposal ≡ ok w
      → p.turn_num ≡ w.turn_num
      → p.proposal.ledger_id ≡ id
      → SignedBy leader_index w p.signature
      → Queued id v (q ++ p ∷ [])
  unfolding apply_queue
  Queued-append id v u w [] p h a e t i s =
      (w, ap (λ x. handle_proposal x p.proposal) (ok_injective a) ∙ e, t, i, s, tt)
  Queued-append id v u w (x ∷ q) p (v', e', t', i', s', rest) a e t i s =
      (v', e', t', i', s', Queued-append id v' u w q p rest (rw e' at a) e t i s)

-- What `sign` signs recovers to the participant at the channel's own position.
pub sign-SignedBy :
    (lib : Library) (c : ConsensusChannel) (v : Vars) (key : Bytes) (sig : Signature)
    → CurveLaws lib
    → sign lib c v key ≡ ok sig
    → SignedBy lib c.fp c.my_index v sig
unfolding sign recover_vars_signer
sign-SignedBy lib c v key sig laws h =
    let (signer, hs, h1) = >>=-eq-ok (address_from_secret_key lib key) _ h in
    let (me, hm, h2) = >>=-eq-ok (participant c.fp c.my_index) _ h1 in
    let (u, hu, h3) = >>=-eq-ok (fail_if (not (me == signer)) wrong_signing_address) _ h2 in
    let (s, ha, h4) = >>=-eq-ok (as_state v c.fp) _ h3 in
    let own = not-equal me signer (fail_if-eq-ok (not (me == signer)) wrong_signing_address hu) in
    record {
      signer = me;
      stands = hm;
      recovers =
          rw (recover_vars_signer, ha, own) (recover_signer-sign lib s key sig signer laws hs h4);
    }
