-- ===== src/Store/Ownership.antt =====
-- Which objective owns a channel, over the writes of the store.
use go_nitro.Base.{
  ◌≡◌, ◌∙◌, ◌⊎◌, inl, inr, refl, ap, sym, true, false, Option, none, some, lookup, insert,
  lookup-insert, ◌==◌, Error, ok, ok_injective, arith, subst, Bool-cases, Option-cases,
  channel_owned, Map, List, [], ◌∷◌,
}
use go_nitro.Types.Destination.{Destination}
use go_nitro.State.Library.{Library}
use go_nitro.Protocols.{
  ObjectiveId, ObjectiveStatus, approved, is_approved, approved_status, equal_ids, same_protocol,
  Protocol, direct_fund, direct_defund, virtual_fund, virtual_defund,
}
use go_nitro.Store.{
  Objective, of_direct_fund, of_direct_defund, of_virtual_fund, of_virtual_defund, Storable,
  of_channel, of_ledger, MemStore, status_of, related, set_related, set_text, take_ownership,
  objective_id, owns_channel, set_objective, set_channel, set_consensus_channel,
}

same_protocol_lem : (p q : Protocol) → same_protocol p q ≡ true → p ≡ q
same_protocol_lem direct_fund direct_fund e = refl
same_protocol_lem direct_defund direct_defund e = refl
same_protocol_lem virtual_fund virtual_fund e = refl
same_protocol_lem virtual_defund virtual_defund e = refl
same_protocol_lem _ _ e = cc

id-eq : (a b : ObjectiveId) → a.prefix ≡ b.prefix → a.channel ≡ b.channel → a ≡ b
id-eq a b p c i = record { prefix = p i; channel = c i }

equal_ids_lem : (a b : ObjectiveId) → equal_ids a b ≡ true → a ≡ b
equal_ids_lem a b e = elim (Bool-cases (same_protocol a.prefix b.prefix)) [
  | inl same ↦ id-eq a b (same_protocol_lem a.prefix b.prefix same) (ground (arith, same, e))
  | inr differs ↦ absurd (ground (arith, differs, e))
]

abbrev pub owner_of : MemStore → Destination → Option ObjectiveId
owner_of ms d = lookup d ms.channel_to_objective

-- How the owners change when an objective is stored.
pub record Owners (ms after : MemStore) (id : ObjectiveId) (owns : Destination)
    (status : ObjectiveStatus) (failure : Option Error) : Type 0 where
  pub kept :
      (d : Destination) (x : ObjectiveId) → owner_of ms d ≡ some x → owner_of after d ≡ some x
  pub taken :
      (d : Destination) (x : ObjectiveId)
      → owner_of after d ≡ some x
      → (owner_of ms d ≡ some x) ⊎ (d ≡ owns) × (x ≡ id) × (status ≡ approved)
  pub granted : status ≡ approved → failure ≡ none → owner_of after owns ≡ some id
  pub refused :
      (status ≡ approved)
      → (x : ObjectiveId) → owner_of ms owns ≡ some x
      → equal_ids x id ≡ false
      → failure ≡ some channel_owned

-- The identifier of an owner, if there is one, in place of a given one.
abbrev owner_or : ObjectiveId → Option ObjectiveId → ObjectiveId
owner_or d none = d
owner_or d (some x) = x

some_owner : (p x : ObjectiveId) → some p ≡ some x → p ≡ x
some_owner p x e = ap (owner_or p) e

idle_status : (s : ObjectiveStatus) → s ≡ approved → is_approved s ≡ false → ⊥
idle_status s a idle = cc

same_owner :
    (p x id : ObjectiveId) → some p ≡ some x → equal_ids p id ≡ true → equal_ids x id ≡ false → ⊥
same_owner p x id e mine other =
    let equal : equal_ids x id ≡ true =
      subst (λ o. equal_ids o id ≡ true) (some_owner p x e) mine in
    cc

no_owner : (x : ObjectiveId) → none ≡ some x → ⊥
no_owner x e = cc

kept_free :
    (d owns : Destination) (id x : ObjectiveId) (m : Map ObjectiveId)
    → lookup owns m ≡ none
    → lookup d m ≡ some x
    → lookup d (insert owns id m) ≡ some x
kept_free d owns id x m free e = elim (Bool-cases (d == owns)) [
  | inl same ↦
      let equal : d ≡ owns = ground (arith, same) in
      let none_there : lookup d m ≡ none = ap (λ k. lookup k m) equal ∙ free in
      absurd (no_owner x (sym none_there ∙ e))
  | inr differs ↦ ground (arith, lookup-insert d owns id m, differs, e)
]

taken_free :
    (d owns : Destination) (id x : ObjectiveId) (m : Map ObjectiveId) {s : ObjectiveStatus}
    → s ≡ approved
    → lookup d (insert owns id m) ≡ some x
    → (lookup d m ≡ some x) ⊎ (d ≡ owns) × (x ≡ id) × (s ≡ approved)
taken_free d owns id x m a e = elim (Bool-cases (d == owns)) [
  | inl same ↦
      let written : some id ≡ lookup d (insert owns id m) =
        ground (arith, lookup-insert d owns id m, same) in
      inr (ground (arith, same), sym (some_owner id x (written ∙ e)), a)
  | inr differs ↦ inl (ground (arith, lookup-insert d owns id m, differs, e))
]

unchanged-Owners :
    (ms : MemStore) (id : ObjectiveId) (owns : Destination) (status : ObjectiveStatus)
    (failure : Option Error)
    → (status ≡ approved → failure ≡ none → owner_of ms owns ≡ some id)
    → (status ≡ approved
        → (x : ObjectiveId) → owner_of ms owns ≡ some x
        → equal_ids x id ≡ false
        → failure ≡ some channel_owned)
    → Owners ms ms id owns status failure
unchanged-Owners ms id owns status failure g r = record {
  kept = λ d x e. e;
  taken = λ d x e. inl e;
  granted = g;
  refused = r;
}

take_ownership-Owners :
    (ms : MemStore) (id : ObjectiveId) (owns : Destination) (status : ObjectiveStatus)
    → Owners ms
        (take_ownership ms id owns status).0
        id
        owns
        status
        (take_ownership ms id owns status).1
unfolding take_ownership
take_ownership-Owners ms id owns status = elim (Bool-cases (is_approved status)) [
  | inr idle ↦ rw idle (
      unchanged-Owners ms id owns status none (λ a n. absurd (idle_status status a idle))
        (λ a x o d. absurd (idle_status status a idle)))
  | inl active ↦ elim (Option-cases (lookup owns ms.channel_to_objective)) [
    | inl free ↦
        rw (active, free)
          (record {
            kept = λ d x e. kept_free d owns id x ms.channel_to_objective free e;
            taken = λ d x e.
                taken_free d owns id x ms.channel_to_objective (approved_status status active) e;
            granted = λ a n. ground (arith, lookup-insert owns owns id ms.channel_to_objective);
            refused = λ a x o d. cc;
          })
    | inr (previous, owned) ↦ elim (Bool-cases (equal_ids previous id)) [
      | inl mine ↦
          rw (active, owned, mine)
            (unchanged-Owners ms id owns status none
              (λ a n. owned ∙ ap some (equal_ids_lem previous id mine))
              (λ a x o d. absurd (same_owner previous x id (sym owned ∙ o) mine d)))
      | inr other ↦
          rw (active, owned, other)
            (unchanged-Owners ms id owns status (some channel_owned) (λ a n. cc) (λ a x o d. refl))
    ]
  ]
]

-- Writing the related values and the text leaves the owners.
set_related_owners :
    (ms : MemStore) (rs : List Storable)
    → (set_related ms rs).channel_to_objective ≡ ms.channel_to_objective
unfolding set_related set_channel set_consensus_channel
set_related_owners ms [] = refl
set_related_owners ms (of_channel c ∷ rs) = set_related_owners (set_channel ms c) rs
set_related_owners ms (of_ledger c ∷ rs) = set_related_owners (set_consensus_channel ms c) rs

set_text_owners :
    (ms : MemStore) (d : Destination) (o : Objective)
    → (set_text ms d o).channel_to_objective ≡ ms.channel_to_objective
unfolding set_text
set_text_owners ms d (of_direct_fund o) = refl
set_text_owners ms d (of_direct_defund o) = refl
set_text_owners ms d (of_virtual_fund o) = refl
set_text_owners ms d (of_virtual_defund o) = refl

Owners-before :
    (ms stored after : MemStore) (id : ObjectiveId) (owns : Destination) (status : ObjectiveStatus)
    (failure : Option Error)
    → stored.channel_to_objective ≡ ms.channel_to_objective
    → Owners stored after id owns status failure
    → Owners ms after id owns status failure
Owners-before ms stored after id owns status failure same o =
    let at : (d : Destination) → owner_of stored d ≡ owner_of ms d = λ d. ap (lookup d) same in
    record {
      kept = λ d x e. o.kept d x (at d ∙ e);
      taken = λ d x e. elim (o.taken d x e) [
        | inl before ↦ inl (sym (at d) ∙ before)
        | inr now ↦ inr now
      ];
      granted = o.granted;
      refused = λ a x e n. o.refused a x (at owns ∙ e) n;
    }

-- Storing an objective takes no channel from its owner. It makes an owner only of the objective
-- itself, of the channel that it claims, and only if it is approved. An approved objective owns its
-- channel afterwards unless the call fails, and the call fails if another one owns the channel.
pub set_objective-Owners :
    (lib : Library) (ms after : MemStore) (o : Objective) (id : ObjectiveId) (owns : Destination)
    (failure : Option Error)
    → objective_id lib o ≡ ok id
    → owns_channel lib o ≡ ok owns
    → set_objective lib ms o ≡ ok (after, failure)
    → Owners ms after id owns (status_of o) failure
unfolding set_objective
set_objective-Owners lib ms after o id owns failure hid howns e =
    let stored = set_related (set_text ms id.channel o) (related o) in
    let made : take_ownership stored id owns (status_of o) ≡ (after, failure) =
      ok_injective (ground (arith, hid, howns, e)) in
    Owners-before ms stored after id owns (status_of o) failure
      (set_related_owners (set_text ms id.channel o) (related o) ∙ set_text_owners ms id.channel o)
      (subst (λ r. Owners stored r.0 id owns (status_of o) r.1) made
        (take_ownership-Owners stored id owns (status_of o)))
