-- ===== src/Protocols/VirtualDefund/Received.antt =====
-- What a signed proposal changes in a virtual defunding objective: at most one of its ledgers.
use go_nitro.Base.{
  Error, invalid_turn_num, Result-cases, ◌≡◌, ◌⊎◌, inl, inr, ap, sym, ◌∙◌, Bool-cases, some, ◌==◌,
  ok, err, deref, or_fail-eq-ok, >>=-eq-ok, ok_injective, arith, panicked, ◌>>=◌,
}
use go_nitro.State.Library.{Library}
use go_nitro.Consensus.Proposal.{SignedProposal, target_of}
use go_nitro.Consensus.Channel.{ConsensusChannel}
use go_nitro.Consensus.Updates.{receive}
use go_nitro.Protocols.VirtualDefund.{Objective, update_proposal, v_id, ignore_turn, ledger_id}

ignored_turn : (c d : ConsensusChannel) (x : Error) → ignore_turn c (err x) ≡ ok d → c ≡ d
ignored_turn c d invalid_turn_num e = ok_injective e
ignored_turn c d _ e = cc

module _ (lib : Library) where
  -- The ledger receives the proposal, or ignores it.
  abbrev pub Takes : SignedProposal → ConsensusChannel → ConsensusChannel → Type 0
  Takes sp c d = (receive lib c sp ≡ ok d) ⊎ (c ≡ d)

  ignore_turn-Takes :
      (sp : SignedProposal) (c d : ConsensusChannel)
      → ignore_turn c (receive lib c sp) ≡ ok d
      → Takes sp c d
  ignore_turn-Takes sp c d e = elim (Result-cases (receive lib c sp)) [
    | inl (x, h) ↦ inl (h ∙ ground (arith, h, e))
    | inr (x, h) ↦ inr (ignored_turn c d x (ap (ignore_turn c) (sym h) ∙ e))
  ]

  -- What a proposal changes: one of the ledgers, which takes it, or nothing.
  pub data Received (sp : SignedProposal) (u w : Objective) : Type 0 where
    ignored : u ≡ w → Received sp u w
    on_left :
        (c d : ConsensusChannel)
        → u.to_my_left ≡ some c
        → Takes sp c d
        → record u { to_my_left = some d } ≡ w
        → Received sp u w
    on_right :
        (c d : ConsensusChannel)
        → u.to_my_right ≡ some c
        → Takes sp c d
        → record u { to_my_right = some d } ≡ w
        → Received sp u w

  pub update_proposal-Received :
      (o u w : Objective) (sp : SignedProposal)
      → update_proposal lib o u sp ≡ ok w
      → Received sp u w
  unfolding update_proposal
  update_proposal-Received o u w sp e =
      let (v, hv, e1) = >>=-eq-ok (v_id lib o) _ e in
      let id = sp.proposal.ledger_id in
      elim (Bool-cases (target_of sp.proposal == v)) [
        | inr other ↦ ignored (ground (arith, other, e1))
        | inl ours ↦ elim (Bool-cases (id == 0)) [
          | inl zero_id ↦ absurd (ground (arith, ours, zero_id, e1))
          | inr known ↦ elim (Bool-cases (id == ledger_id o.to_my_left)) [
            | inl left ↦
                let taken : (deref u.to_my_left >>= λ c.
                ignore_turn c (receive lib c sp) >>= λ d. ok (record u { to_my_left = some d }))
                    ≡ ok w =
                  ground (arith, ours, known, left, e1) in
                let (c, hc, e2) = >>=-eq-ok (deref u.to_my_left) _ taken in
                let (d, hd, e3) = >>=-eq-ok (ignore_turn c (receive lib c sp)) _ e2 in
                on_left c d (or_fail-eq-ok u.to_my_left panicked hc) (ignore_turn-Takes sp c d hd)
                  (ok_injective e3)
            | inr not_left ↦ elim (Bool-cases (id == ledger_id o.to_my_right)) [
              | inl right ↦
                  let taken : (deref u.to_my_right >>= λ c.
                  ignore_turn c (receive lib c sp) >>= λ d. ok (record u { to_my_right = some d }))
                      ≡ ok w =
                    ground (arith, ours, known, not_left, right, e1) in
                  let (c, hc, e2) = >>=-eq-ok (deref u.to_my_right) _ taken in
                  let (d, hd, e3) = >>=-eq-ok (ignore_turn c (receive lib c sp)) _ e2 in
                  on_right c d (or_fail-eq-ok u.to_my_right panicked hc)
                    (ignore_turn-Takes sp c d hd) (ok_injective e3)
              | inr unknown ↦ absurd (ground (arith, ours, known, not_left, unknown, e1))
            ]
          ]
        ]
      ]
