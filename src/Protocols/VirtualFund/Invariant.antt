-- ===== src/Protocols/VirtualFund/Invariant.antt =====
-- What a virtual funding objective does to its ledgers, and when it completes.
use go_nitro.Base.{
  Bool, ◌≡◌, inl, inr, refl, ap, ◌∙◌, true, false, Bool-cases, not, ◌==◌, Option, none, some,
  if◌then◌else◌, ◌>>=◌, ok, fail_if, >>=-eq-ok, ok_injective, arith, subst, Result-cases,
  incorrect_channel_id,
}
use go_nitro.Types.Destination.{Bytes}
use go_nitro.State.Library.{Library}
use go_nitro.State.Recovery.{CurveLaws}
use go_nitro.Consensus.Proposal.{SignedProposal}
use go_nitro.Consensus.Channel.{
  ConsensusChannel, is_leader, is_proposed, is_proposed_next, leader, follower,
}
use go_nitro.Consensus.Updates.{propose, receive, sign_next_proposal}
use go_nitro.Consensus.Updates.History.{proposes, receives, signs}
use go_nitro.Consensus.Support.{clone_channel}
use go_nitro.Consensus.Support.Copies.{Moves, Moves-refl, Moves-trans, Step-Moves, clone-Moves}
use go_nitro.Protocols.{SideEffects, no_effects}
use go_nitro.Protocols.VirtualFund.{clone_connection}
use go_nitro.Protocols.VirtualFund.Ledgers.{
  Connection, handle_proposal, expected_proposal, expected_guarantee, propose_ledger_update,
  accept_ledger_update, update_ledger_with_guarantee, unless_failed, funded,
}
use go_nitro.Protocols.VirtualFund.Crank.{update_side}

module _ (lib : Library) (laws : CurveLaws lib) where
  -- The same connection, of which only the ledger has moved.
  abbrev pub ConnectionMoves : Option Connection → Option Connection → Type 0
  ConnectionMoves none none = Unit
  ConnectionMoves none (some d) = ⊥
  ConnectionMoves (some c) none = ⊥
  ConnectionMoves (some c) (some d) =
      Moves lib c.channel d.channel × (d.guarantee_info ≡ c.guarantee_info)

  pub ConnectionMoves-refl : (c : Option Connection) → ConnectionMoves c c
  ConnectionMoves-refl none = tt
  ConnectionMoves-refl (some c) = (Moves-refl lib c.channel, refl)

  pub ConnectionMoves-trans :
      (b c d : Option Connection) → ConnectionMoves b c → ConnectionMoves c d → ConnectionMoves b d
  ConnectionMoves-trans none none none m n = tt
  ConnectionMoves-trans none none (some d) m n = n
  ConnectionMoves-trans none (some c) d m n = absurd m
  ConnectionMoves-trans (some b) none d m n = absurd m
  ConnectionMoves-trans (some b) (some c) none m n = absurd n
  ConnectionMoves-trans (some b) (some c) (some d) (m, i) (n, j) =
      (Moves-trans lib b.channel c.channel d.channel m n, j ∙ i)

  pub clone_connection-Moves :
      (c d : Option Connection) → clone_connection c ≡ ok d → ConnectionMoves c d
  unfolding clone_connection
  clone_connection-Moves none d e = subst (ConnectionMoves none) (ok_injective e) tt
  clone_connection-Moves (some c) d e =
      let (l, hl, e1) = >>=-eq-ok (clone_channel c.channel) _ e in
      subst (ConnectionMoves (some c)) (ok_injective e1) (clone-Moves lib c.channel l hl, refl)

  propose-Moves :
      (c : Connection) (key : Bytes) (se : SideEffects) (l : ConsensusChannel)
      → propose_ledger_update lib c key ≡ ok (se, l)
      → Moves lib c.channel l
  unfolding propose_ledger_update
  propose-Moves c key se l e =
      let (_, _, e1) = >>=-eq-ok (fail_if (not (is_leader c.channel)) _) _ e in
      let ((sp, m), hm, e2) = >>=-eq-ok (propose lib c.channel (expected_proposal c) key) _ e1 in
      let (to, _, e3) = >>=-eq-ok (follower m) _ e2 in
      subst (Moves lib c.channel) (ap (λ x. x.1) (ok_injective e3))
        (Step-Moves lib laws c.channel m (proposes (expected_proposal c) key sp hm))

  accept-Moves :
      (c : Connection) (key : Bytes) (se : SideEffects) (l : ConsensusChannel)
      → accept_ledger_update lib c key ≡ ok (se, l)
      → Moves lib c.channel l
  unfolding accept_ledger_update
  accept-Moves c key se l e =
      let ((sp, m), hm, e2) =
        >>=-eq-ok (sign_next_proposal lib c.channel (expected_proposal c) key) _ e in
      let (to, _, e3) = >>=-eq-ok (leader m) _ e2 in
      subst (Moves lib c.channel) (ap (λ x. x.1) (ok_injective e3))
        (Step-Moves lib laws c.channel m (signs (expected_proposal c) key sp hm))

  -- An update of a ledger is one of its operations, or none.
  update_ledger-Moves :
      (c : Connection) (key : Bytes) (se : SideEffects) (l : ConsensusChannel)
      → update_ledger_with_guarantee lib c key ≡ ok (se, l)
      → Moves lib c.channel l
  unfolding update_ledger_with_guarantee
  update_ledger-Moves c key se l e =
      let (proposed, hp, e1) = >>=-eq-ok (is_proposed c.channel (expected_guarantee c)) _ e in
      elim (Bool-cases (is_leader c.channel)) [
        | inl leads ↦ elim (Bool-cases proposed) [
          | inl again ↦
              subst (Moves lib c.channel) (ground (arith, leads, again, e1))
                (Moves-refl lib c.channel)
          | inr fresh ↦ propose-Moves c key se l (ground (arith, leads, fresh, e1))
        ]
        | inr follows ↦
            let accepting : (unless_failed (is_proposed_next c.channel (expected_guarantee c))
                  >>= λ next.
                      if next then accept_ledger_update lib c key else ok (no_effects, c.channel))
                ≡ ok (se, l) =
              ground (arith, follows, e1) in
            let (next, hn, e2) =
              >>=-eq-ok (unless_failed (is_proposed_next c.channel (expected_guarantee c)))
                (λ next.
                  if next then accept_ledger_update lib c key else ok (no_effects, c.channel))
                accepting in
            elim (Bool-cases next) [
              | inl signs_it ↦ accept-Moves c key se l (ground (arith, signs_it, e2))
              | inr waits ↦
                  subst (Moves lib c.channel) (ground (arith, waits, e2)) (Moves-refl lib c.channel)
            ]
      ]

  -- A proposal that is handled is received, or dropped.
  pub handle_proposal-Moves :
      (c : Option Connection) (sp : SignedProposal) (d : Connection)
      → handle_proposal lib c sp ≡ ok d
      → ConnectionMoves c (some d)
  unfolding handle_proposal
  handle_proposal-Moves none sp d e = cc
  handle_proposal-Moves (some c) sp d e =
      let (_, _, e1) =
        >>=-eq-ok (fail_if (not (sp.proposal.ledger_id == c.channel.id)) incorrect_channel_id) _
          e in
      elim (Result-cases (receive lib c.channel sp)) [
        | inl (l, h) ↦
            let made : record c { channel = l } ≡ d = ground (arith, h, e1) in
            subst (λ x. ConnectionMoves (some c) (some x)) made
              (Step-Moves lib laws c.channel l (receives sp h), refl)
        | inr (x, h) ↦
            let same : c ≡ d = ground (arith, h, e1) in
            subst (λ x. ConnectionMoves (some c) (some x)) same (Moves-refl lib c.channel, refl)
      ]

  pub update_side-Moves :
      (key : Bytes) (absent : Bool) (c d : Option Connection) (se se' : SideEffects)
      → update_side lib key absent c se ≡ ok (se', d)
      → ConnectionMoves c d
  unfolding update_side
  update_side-Moves key true c d se se' e =
      subst (ConnectionMoves c) {x = c} (ground (arith, e)) (ConnectionMoves-refl c)
  update_side-Moves key false none d se se' e = cc
  update_side-Moves key false (some c) d se se' e = elim (Bool-cases (funded c)) [
    | inl full ↦
        subst (ConnectionMoves (some c)) {x = some c} (ground (arith, full, e))
          (ConnectionMoves-refl (some c))
    | inr short ↦ elim (Result-cases (update_ledger_with_guarantee lib c key)) [
      | inr (x, h) ↦ absurd (ground (arith, short, h, e))
      | inl ((more, l), h) ↦
          let made : some (record c { channel = l }) ≡ d = ground (arith, short, h, e) in
          subst (ConnectionMoves (some c)) made (update_ledger-Moves c key more l h, refl)
    ]
  ]
