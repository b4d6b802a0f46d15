-- ===== src/Consensus/Support/Copies.antt =====
-- A copy of a valid ledger channel is valid, and an operation on the copy keeps what it has.
use go_nitro.Base.{
  ◌≡◌, refl, ap, sym, ◌∙◌, subst, inl, inr, Bool-cases, true, false, List, [], ◌∷◌, ok, deref,
  >>=-eq-ok, ok_injective, or_fail-eq-ok, panicked, arith, has_key, fail_if, duplicate_guarantee,
  lookup, or_fail, guarantee_not_found,
}
use go_nitro.Types.Destination.{Destination}
use go_nitro.Types.Funds
use go_nitro.State.Data.{FixedPart, clone_fixed_part}
use go_nitro.State.Library.{Library}
use go_nitro.State.Recovery.{CurveLaws}
use go_nitro.Consensus.Guarantee.{clone_guarantee}
use go_nitro.Consensus.LedgerOutcome
use go_nitro.Consensus.LedgerOutcome.Copy.{clone-eq, clone_guarantee-eq}
use go_nitro.Consensus.Proposal.{
  Add, Remove, Proposal, SignedProposal, zero_add, is_zero_add, clone_add, clone_remove,
  clone_proposal,
}
use go_nitro.Consensus.Vars.{Vars, handle_proposal, add, remove}
use go_nitro.Consensus.Vars
use go_nitro.Consensus.Vars.Funds.{total_funds}
use go_nitro.Consensus.Channel.{ConsensusChannel, SignedVars}
use go_nitro.Consensus.Support.{
  clone_signed_proposal, clone_signed_vars, clone_queue, clone_channel,
}
use go_nitro.Consensus.Updates.Queue.{Queued}
use go_nitro.Consensus.Updates.Invariant.{IsValid}
use go_nitro.Consensus.Updates.History.{Step, Step-IsValid}

pub clone_fixed_part-eq : (f g : FixedPart) → clone_fixed_part f ≡ ok g → f ≡ g
unfolding clone_fixed_part
clone_fixed_part-eq f g e =
    let (x, hx, e1) = >>=-eq-ok (deref f.chain_id) _ e in
    let (y, hy, e2) = >>=-eq-ok (deref f.channel_nonce) _ e1 in
    let (z, hz, e3) = >>=-eq-ok (deref f.challenge_duration) _ e2 in
    let p = or_fail-eq-ok f.chain_id panicked hx in
    let q = or_fail-eq-ok f.channel_nonce panicked hy in
    let r = or_fail-eq-ok f.challenge_duration panicked hz in
    (λ i. record f { chain_id = p i; channel_nonce = q i; challenge_duration = r i })
    ∙ ok_injective e3

vars_clone-eq : (v w : Vars) → Vars.clone v ≡ ok w → v ≡ w
unfolding Vars.clone
vars_clone-eq v w e =
    let (o, ho, e1) = >>=-eq-ok (LedgerOutcome.clone v.outcome) _ e in
    (λ i. record v { outcome = clone-eq v.outcome o ho i }) ∙ ok_injective e1

signed_vars_clone-eq : (v w : SignedVars) → clone_signed_vars v ≡ ok w → v ≡ w
unfolding clone_signed_vars
signed_vars_clone-eq v w e =
    let (u, hu, e1) = >>=-eq-ok (Vars.clone v.vars) _ e in
    (λ i. record v { vars = vars_clone-eq v.vars u hu i }) ∙ ok_injective e1

-- An addition that can be applied has a deposit, and its copy is itself.
clone_add-eq : (v w : Vars) (a b : Add) → add v a ≡ ok w → clone_add a ≡ ok b → a ≡ b
unfolding add clone_add
clone_add-eq v w a b h e =
    let (_, _, h1) =
      >>=-eq-ok (fail_if (has_key a.guarantee.target v.outcome.guarantees) duplicate_guarantee) _
        h in
    let (left, hl, _) = >>=-eq-ok (deref a.left_deposit) _ h1 in
    let some_left = or_fail-eq-ok a.left_deposit panicked hl in
    let (g, hg, e1) = >>=-eq-ok (clone_guarantee a.guarantee) _ (rw some_left at e) in
    (λ i. record a {
      guarantee = clone_guarantee-eq a.guarantee g hg i;
      left_deposit = some_left i;
    })
    ∙ ok_injective e1

-- A removal that can be applied has an amount.
clone_remove-eq : (v w : Vars) (r : Remove) → remove v r ≡ ok w → r ≡ clone_remove r
unfolding remove clone_remove
clone_remove-eq v w r h =
    let (g, _, h1) =
      >>=-eq-ok (or_fail (lookup r.target v.outcome.guarantees) guarantee_not_found) _ h in
    let (left, hl, _) = >>=-eq-ok (deref r.left_amount) _ h1 in
    ground (arith, or_fail-eq-ok r.left_amount panicked hl)

zero_add_copy : (a b : Add) → is_zero_add a ≡ true → clone_add a ≡ ok b → b ≡ zero_add
unfolding clone_add
zero_add_copy a b z e = ground (arith, z, e)

handle_addition :
    (v : Vars) (p : Proposal) → is_zero_add p.to_add ≡ false → handle_proposal v p ≡ add v p.to_add
unfolding handle_proposal
handle_addition v p z = rw (z, handle_proposal) refl

handle_removal :
    (v : Vars) (p : Proposal)
    → is_zero_add p.to_add ≡ true
    → handle_proposal v p ≡ remove v p.to_remove
unfolding handle_proposal
handle_removal v p z = rw (z, handle_proposal) refl

-- The copy of a proposal that can be applied leads to the same vars.
clone_proposal_handled :
    (v w : Vars) (p q : Proposal)
    → handle_proposal v p ≡ ok w
    → clone_proposal p ≡ ok q
    → (handle_proposal v q ≡ ok w) × (q.ledger_id ≡ p.ledger_id)
unfolding clone_proposal
clone_proposal_handled v w p q h e =
    let (a, ha, e1) = >>=-eq-ok (clone_add p.to_add) _ e in
    let made : Proposal = record {
      ledger_id = p.ledger_id;
      to_add = a;
      to_remove = clone_remove p.to_remove;
    } in
    let same : made ≡ q = ok_injective e1 in
    subst (λ x. (handle_proposal v x ≡ ok w) × (x.ledger_id ≡ p.ledger_id)) same
      (elim (Bool-cases (is_zero_add p.to_add)) [
        | inl removal ↦
            let r = clone_remove-eq v w p.to_remove (sym (handle_removal v p removal) ∙ h) in
            let z : is_zero_add a ≡ true = ap is_zero_add (zero_add_copy p.to_add a removal ha) in
            (
              handle_removal v made z
                  ∙ ap (remove v) (sym r)
                  ∙ sym (handle_removal v p removal)
                  ∙ h,
              refl,
            )
        | inr addition ↦
            let s = clone_add-eq v w p.to_add a (sym (handle_addition v p addition) ∙ h) ha in
            (
              handle_addition v made (ap is_zero_add (sym s) ∙ addition)
                  ∙ ap (add v) (sym s)
                  ∙ sym (handle_addition v p addition)
                  ∙ h,
              refl,
            )
      ])

-- The same channel between the same participants, in the same role, with the same sum of balances
-- and guarantees.
pub record SameLedger (c c' : ConsensusChannel) : Type 0 where
  pub fixed : c'.fp ≡ c.fp
  pub name : c'.id ≡ c.id
  pub role : c'.my_index ≡ c.my_index
  pub total : total_funds c'.current.vars.outcome ≡ total_funds c.current.vars.outcome

pub SameLedger-trans : (b c d : ConsensusChannel) → SameLedger b c → SameLedger c d → SameLedger b d
SameLedger-trans b c d s t = record {
  fixed = t.fixed ∙ s.fixed;
  name = t.name ∙ s.name;
  role = t.role ∙ s.role;
  total = t.total ∙ s.total;
}

module _ (lib : Library) where
  clone_queue-Queued :
      (fp : FixedPart) (id : Destination) (v : Vars) (q r : List SignedProposal)
      → Queued lib fp id v q
      → clone_queue q ≡ ok r
      → Queued lib fp id v r
  unfolding clone_queue clone_signed_proposal
  clone_queue-Queued fp id v [] r h e = subst (Queued lib fp id v) (ok_injective e) tt
  clone_queue-Queued fp id v (p ∷ q) r (w, handled, turn, own, signed, rest) e =
      let (p', hp, e1) = >>=-eq-ok (clone_signed_proposal p) _ e in
      let (q', hq, e2) = >>=-eq-ok (clone_queue q) _ e1 in
      let (c, hc, e3) = >>=-eq-ok (clone_proposal p.proposal) _ hp in
      let made : SignedProposal = record {
        signature = p.signature;
        proposal = c;
        turn_num = p.turn_num;
      } in
      let same : made ≡ p' = ok_injective e3 in
      let (again, id_kept) = clone_proposal_handled v w p.proposal c handled hc in
      subst (Queued lib fp id v) (ap (λ x. x ∷ q') same ∙ ok_injective e2)
        (w, again, turn, id_kept ∙ own, signed, clone_queue-Queued fp id w q q' rest hq)

  -- The operations of the ledger that led from the one to the other, with copies in between.
  pub data Trace (c : ConsensusChannel) : ConsensusChannel → Type 0 where
    here : Trace c c
    next : {d e : ConsensusChannel} → Trace c d → Step lib d e → Trace c e
    copied : {d e : ConsensusChannel} → Trace c d → clone_channel d ≡ ok e → Trace c e

  Trace-trans : {b c d : ConsensusChannel} → Trace b c → Trace c d → Trace b d
  Trace-trans t here = t
  Trace-trans t (next u s) = next (Trace-trans t u) s
  Trace-trans t (copied u e) = copied (Trace-trans t u) e

  -- Only operations and copies lead from the one to the other, and they keep a valid ledger valid,
  -- and the same ledger.
  abbrev pub Moves : ConsensusChannel → ConsensusChannel → Type 0
  Moves c c' = Trace c c' × (IsValid lib c → IsValid lib c' × SameLedger c c')

  pub Moves-refl : (c : ConsensusChannel) → Moves c c
  Moves-refl c = (here, λ v. (v, record { fixed = refl; name = refl; role = refl; total = refl }))

  pub Moves-trans : (b c d : ConsensusChannel) → Moves b c → Moves c d → Moves b d
  Moves-trans b c d (t, m) (u, n) = (
    Trace-trans t u,
    λ v. let (w, s) = m v in let (x, r) = n w in (x, SameLedger-trans b c d s r),
  )

  -- A step of the ledger, by any of its operations.
  pub Step-Moves : CurveLaws lib → (c c' : ConsensusChannel) → Step lib c c' → Moves c c'
  Step-Moves laws c c' step = (
    next here step,
    λ v.
        let (w, s) = Step-IsValid lib c c' laws v step in
        (w, record { fixed = s.fixed; name = s.name; role = s.role; total = s.total }),
  )

  clone-IsValid :
      (c : ConsensusChannel) (fp : FixedPart) (current : SignedVars) (q : List SignedProposal)
      → clone_queue c.proposal_queue ≡ ok q
      → c.fp ≡ fp
      → c.current ≡ current
      → IsValid lib c
      → let d : ConsensusChannel = record {
        my_index = c.my_index;
        fp = fp;
        id = c.id;
        on_chain_funding = Funds.clone c.on_chain_funding;
        current = current;
        proposal_queue = q;
      } in
        IsValid lib d × SameLedger c d
  clone-IsValid c fp current q hq f s v =
      subst
        (λ (y : FixedPart × SignedVars).
          let d : ConsensusChannel = record {
            my_index = c.my_index;
            fp = y.0;
            id = c.id;
            on_chain_funding = Funds.clone c.on_chain_funding;
            current = y.1;
            proposal_queue = q;
          } in
          IsValid lib d × SameLedger c d)
        (λ i. (f i, s i))
        (
          record {
            leader_signed = v.leader_signed;
            follower_signed = v.follower_signed;
            keyed = v.keyed;
            queued = clone_queue-Queued c.fp c.id c.current.vars c.proposal_queue q v.queued hq;
          },
          record { fixed = refl; name = refl; role = refl; total = refl },
        )

  -- A copy of a valid ledger is a valid copy of the same ledger.
  pub clone-Moves : (c c' : ConsensusChannel) → clone_channel c ≡ ok c' → Moves c c'
  unfolding clone_channel
  clone-Moves c c' e =
      let (q, hq, e1) = >>=-eq-ok (clone_queue c.proposal_queue) _ e in
      let (fp, hf, e2) = >>=-eq-ok (clone_fixed_part c.fp) _ e1 in
      let (s, hs, e3) = >>=-eq-ok (clone_signed_vars c.current) _ e2 in
      (
        copied here e,
        λ v.
            subst (λ d. IsValid lib d × SameLedger c d) (ok_injective e3)
              (clone-IsValid c fp s q hq (clone_fixed_part-eq c.fp fp hf)
                (signed_vars_clone-eq c.current s hs) v),
      )
