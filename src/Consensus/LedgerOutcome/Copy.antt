-- ===== src/Consensus/LedgerOutcome/Copy.antt =====
-- A copy of an outcome is the outcome, and copying panics only on a nil amount.
use go_nitro.Base.{
  ◌≡◌, refl, ◌∙◌, some, All, [], ◌∷◌, ℤ, Map, ok, deref, >>=-eq-ok, ok_injective, or_fail-eq-ok,
  panicked, arith,
}
use go_nitro.Consensus.Guarantee.{Guarantee, clone_guarantee}
use go_nitro.Consensus.LedgerOutcome.{LedgerOutcome, clone_guarantees, clone}

pub clone_guarantee-eq : (g h : Guarantee) → clone_guarantee g ≡ ok h → g ≡ h
unfolding clone_guarantee
clone_guarantee-eq g h e =
    let (x, p, q) = >>=-eq-ok (deref g.amount) _ e in
    let amount = or_fail-eq-ok g.amount panicked p in
    (λ i. record g { amount = amount i }) ∙ ok_injective q

clone_guarantees-eq : (m n : Map Guarantee) → clone_guarantees m ≡ ok n → m ≡ n
unfolding clone_guarantees
clone_guarantees-eq [] n e = ok_injective e
clone_guarantees-eq ((k, g) ∷ m) n e =
    let (h, p, e1) = >>=-eq-ok (clone_guarantee g) _ e in
    let (rest, q, e2) = >>=-eq-ok (clone_guarantees m) _ e1 in
    cc (clone_guarantee-eq g h p, clone_guarantees-eq m rest q, ok_injective e2)

pub clone-eq : (o o' : LedgerOutcome) → clone o ≡ ok o' → o ≡ o'
unfolding clone
clone-eq o o' e =
    let (m, p, q) = >>=-eq-ok (clone_guarantees o.guarantees) _ e in
    (λ i. record o { guarantees = clone_guarantees-eq o.guarantees m p i }) ∙ ok_injective q

-- Every guarantee has an amount.
abbrev pub HasAmounts : Map Guarantee → Type 0
HasAmounts = All (λ e. (x : ℤ) × ((e.1).amount ≡ some x))

clone_guarantees_self : (m : Map Guarantee) → HasAmounts m → clone_guarantees m ≡ ok m
unfolding clone_guarantees clone_guarantee
clone_guarantees_self [] h = refl
clone_guarantees_self ((k, g) ∷ m) h = ground (arith, clone_guarantees_self m h.1)

pub clone_self : (o : LedgerOutcome) → HasAmounts o.guarantees → clone o ≡ ok o
unfolding clone
clone_self o h = rw (clone_guarantees_self o.guarantees h)
