-- ===== src/Store/Reading.antt =====
-- An objective of each protocol is read again from a store with its text and its related values.
use go_nitro.Base.{
  ℕ, ◌≡◌, ◌∙◌, refl, ap, false, Option, none, some, ◌++◌, Map, lookup, insert, lookup-insert, ◌==◌,
  ok, arith, Bool-cases, inl, inr,
}
use go_nitro.Types.Destination.{Destination}
use go_nitro.Channel.Serde.{marshal_channel, unmarshal_channel-marshal_channel}
use go_nitro.Consensus.Channel.{ConsensusChannel}
use go_nitro.Consensus.Serde.{
  JsonConsensusChannel, marshal_consensus_channel, unmarshal-marshal_consensus_channel,
}
use go_nitro.Protocols.{ObjectiveId, virtual_defund}
use go_nitro.Protocols.DirectFund
use go_nitro.Protocols.DirectDefund
use go_nitro.Protocols.VirtualFund
use go_nitro.Protocols.VirtualDefund
use go_nitro.Protocols.VirtualFund.Ledgers.{Connection}
use go_nitro.Store.{
  Objective, of_direct_fund, of_direct_defund, of_virtual_fund, of_virtual_defund, MemStore,
  related, set_related, set_text, get_objective_by_id, get_channel_by_id,
  get_consensus_channel_by_id, populate_connection, populate_ledger, ledger_of, ledger_of_side,
}
use go_nitro.Store.Serde.{
  ledger_with_id, marshal_ledger, unmarshal_ledger, unmarshal_direct_fund, unmarshal_direct_defund,
  unmarshal_virtual_fund, unmarshal_virtual_defund, marshal_direct_fund, marshal_direct_defund,
  marshal_virtual_fund, marshal_virtual_defund, marshal_connection, unmarshal_connection,
}

found : {V : Type 0} → (k : ℕ) (v : V) (m : Map V) → lookup k (insert k v m) ≡ some v
found k v m = ground (arith, lookup-insert k k v m)

abbrev pub IsNamed : Option ConsensusChannel → Type 0
IsNamed none = Unit
IsNamed (some c) = (c.id == 0) ≡ false

abbrev pub AreApart : Option ConsensusChannel → Option ConsensusChannel → Type 0
AreApart none d = Unit
AreApart (some c) none = Unit
AreApart (some c) (some d) = (c.id == d.id) ≡ false

abbrev pub channel_of : Option Connection → Option ConsensusChannel
channel_of none = none
channel_of (some c) = some c.channel

-- The ledgers of an objective, where it has two, have identifiers that differ. Those of a virtual
-- funding objective are not zero.
abbrev pub HasLedgers : Objective → Type 0
HasLedgers (of_direct_fund o) = Unit
HasLedgers (of_direct_defund o) = Unit
HasLedgers (of_virtual_fund o) =
    IsNamed (channel_of o.to_my_left)
    × IsNamed (channel_of o.to_my_right)
    × AreApart (channel_of o.to_my_left) (channel_of o.to_my_right)
HasLedgers (of_virtual_defund o) = AreApart o.to_my_left o.to_my_right

-- The zero ledger for none.
abbrev pub reread_ledger : Option ConsensusChannel → ConsensusChannel
reread_ledger none = ledger_with_id 0
reread_ledger (some c) = c

-- What is read again: of a virtual defunding objective, the zero ledger for a side without one.
abbrev pub reread : Objective → Objective
reread (of_direct_fund o) = of_direct_fund o
reread (of_direct_defund o) = of_direct_defund o
reread (of_virtual_fund o) = of_virtual_fund o
reread (of_virtual_defund o) = of_virtual_defund (record o {
  to_my_left = some (reread_ledger o.to_my_left);
  to_my_right = some (reread_ledger o.to_my_right);
})

pub direct_fund_again :
    (ms : MemStore) (o : DirectFund.Objective) (m : Map ObjectiveId)
    → get_objective_by_id
        (record (set_related (set_text ms o.c.id (of_direct_fund o)) (related (of_direct_fund o))) {
          channel_to_objective = m;
        })
        (DirectFund.id_of o)
      ≡ ok (of_direct_fund o)
unfolding get_objective_by_id set_related set_text related DirectFund.id_of get_channel_by_id
    marshal_direct_fund unmarshal_direct_fund
direct_fund_again ms o m =
    rw
      (
        found o.c.id (marshal_direct_fund o) ms.direct_funds,
        found o.c.id (marshal_channel o.c) ms.channels,
        unmarshal_channel-marshal_channel o.c,
      )
      refl

pub direct_defund_again :
    (ms : MemStore) (o : DirectDefund.Objective) (m : Map ObjectiveId)
    → get_objective_by_id
        (record (set_related
          (set_text ms o.c.id (of_direct_defund o))
          (related (of_direct_defund o))) { channel_to_objective = m })
        (DirectDefund.id_of o)
      ≡ ok (of_direct_defund o)
unfolding get_objective_by_id set_related set_text related DirectDefund.id_of get_channel_by_id
    marshal_direct_defund unmarshal_direct_defund
direct_defund_again ms o m =
    rw
      (
        found o.c.id (marshal_direct_defund o) ms.direct_defunds,
        found o.c.id (marshal_channel o.c) ms.channels,
        unmarshal_channel-marshal_channel o.c,
      )
      refl

-- The ledgers of a store, with those of the two sides.
abbrev pub put : Option ConsensusChannel → Map JsonConsensusChannel → Map JsonConsensusChannel
put none m = m
put (some c) m = insert c.id (marshal_consensus_channel c) m

-- A ledger that is written before another is found.
found_before :
    (c d : ConsensusChannel) (m : Map JsonConsensusChannel)
    → (c.id == d.id) ≡ false
    → lookup c.id (put (some d) (put (some c) m)) ≡ some (marshal_consensus_channel c)
found_before c d m h =
    let j = marshal_consensus_channel c in
    let k = marshal_consensus_channel d in
    ground (arith, lookup-insert c.id d.id k (insert c.id j m), found c.id j m)

found_left :
    (c : ConsensusChannel) (d : Option ConsensusChannel) (m : Map JsonConsensusChannel)
    → AreApart (some c) d
    → lookup c.id (put d (put (some c) m)) ≡ some (marshal_consensus_channel c)
found_left c none m h = found c.id (marshal_consensus_channel c) m
found_left c (some d) m h = found_before c d m h

-- A ledger, if there is one, is in the map.
abbrev IsIn : Map JsonConsensusChannel → Option ConsensusChannel → Type 0
IsIn m none = Unit
IsIn m (some c) = lookup c.id m ≡ some (marshal_consensus_channel c)

-- A ledger whose text is in the store is read.
ledger_found :
    (ms : MemStore) (c : ConsensusChannel)
    → IsIn ms.consensus_channels (some c)
    → get_consensus_channel_by_id ms c.id ≡ ok c
unfolding get_consensus_channel_by_id
ledger_found ms c h = rw (h, unmarshal-marshal_consensus_channel c) refl

-- A connection is read again, from a store that has its ledger.
connection_again :
    (ms : MemStore) (c : Option Connection)
    → IsNamed (channel_of c)
    → IsIn ms.consensus_channels (channel_of c)
    → populate_connection ms (unmarshal_connection (marshal_connection c)) ≡ ok c
connection_again ms none n h = refl
connection_again ms (some c) n h = ground (arith, n, ledger_found ms c.channel h)

-- A ledger is read again, whether it is looked up or, with the zero identifier, is not.
ledger_again :
    (ms : MemStore) (c : Option ConsensusChannel)
    → IsIn ms.consensus_channels c
    → populate_ledger ms (some (unmarshal_ledger (marshal_ledger c))) ≡ ok (some (reread_ledger c))
unfolding get_consensus_channel_by_id marshal_consensus_channel
ledger_again ms none h = refl
ledger_again ms (some c) h = elim (Bool-cases (c.id == 0)) [
  | inl zero_id ↦ rw (unmarshal-marshal_consensus_channel c, zero_id) refl
  | inr named ↦
      rw (unmarshal-marshal_consensus_channel c, named, h, unmarshal-marshal_consensus_channel c)
        refl
]

-- The ledgers of both sides are in the store.
left_found :
    (l r : Option ConsensusChannel) (m : Map JsonConsensusChannel)
    → AreApart l r
    → IsIn (put r (put l m)) l
left_found none r m h = tt
left_found (some c) r m h = found_left c r m h

right_found :
    (l r : Option ConsensusChannel) (m : Map JsonConsensusChannel) → IsIn (put r (put l m)) r
right_found l none m = tt
right_found l (some c) m = found c.id (marshal_consensus_channel c) (put l m)

set_connections :
    (ms : MemStore) (l r : Option Connection)
    → set_related ms (ledger_of l ++ ledger_of r) ≡ record ms {
      consensus_channels = put (channel_of r) (put (channel_of l) ms.consensus_channels);
    }
unfolding set_related
set_connections ms none none = refl
set_connections ms none (some r) = refl
set_connections ms (some l) none = refl
set_connections ms (some l) (some r) = refl

set_sides :
    (ms : MemStore) (l r : Option ConsensusChannel)
    → set_related ms (ledger_of_side l ++ ledger_of_side r)
      ≡ record ms { consensus_channels = put r (put l ms.consensus_channels) }
unfolding set_related
set_sides ms none none = refl
set_sides ms none (some r) = refl
set_sides ms (some l) none = refl
set_sides ms (some l) (some r) = refl

pub virtual_fund_again :
    (ms : MemStore) (o : VirtualFund.Objective) (m : Map ObjectiveId)
    → HasLedgers (of_virtual_fund o)
    → get_objective_by_id
        (record (set_related
          (set_text ms o.v.id (of_virtual_fund o))
          (related (of_virtual_fund o))) { channel_to_objective = m })
        (VirtualFund.id_of o)
      ≡ ok (of_virtual_fund o)
unfolding VirtualFund.id_of get_objective_by_id related set_related set_text unmarshal_virtual_fund
    marshal_virtual_fund get_channel_by_id
virtual_fund_again ms o m (nl, nr, apart) =
    let l = channel_of o.to_my_left in
    let r = channel_of o.to_my_right in
    let texts = insert o.v.id (marshal_virtual_fund o) ms.virtual_funds in
    let first = record ms {
      virtual_funds = texts;
      channels = insert o.v.id (marshal_channel o.v) ms.channels;
    } in
    let after = record first {
      consensus_channels = put r (put l ms.consensus_channels);
      channel_to_objective = m;
    } in
    ap (λ s. get_objective_by_id (record s { channel_to_objective = m }) (VirtualFund.id_of o))
      (set_connections first o.to_my_left o.to_my_right)
    ∙ rw
        (
          found o.v.id (marshal_virtual_fund o) ms.virtual_funds,
          found o.v.id (marshal_channel o.v) ms.channels,
          unmarshal_channel-marshal_channel o.v,
          connection_again after o.to_my_left nl (left_found l r ms.consensus_channels apart),
          connection_again after o.to_my_right nr (right_found l r ms.consensus_channels),
        )
        refl

pub virtual_defund_again :
    (ms : MemStore) (o : VirtualDefund.Objective) (v : Destination) (m : Map ObjectiveId)
    → HasLedgers (of_virtual_defund o)
    → get_objective_by_id
        (record (set_related
          (set_text ms v (of_virtual_defund o))
          (related (of_virtual_defund o))) { channel_to_objective = m })
        (record { prefix = virtual_defund; channel = v })
      ≡ ok (reread (of_virtual_defund o))
unfolding get_objective_by_id related set_related set_text unmarshal_virtual_defund
    marshal_virtual_defund
virtual_defund_again ms o v m apart =
    let l = o.to_my_left in
    let r = o.to_my_right in
    let first = record ms {
      virtual_defunds = insert v (marshal_virtual_defund o) ms.virtual_defunds;
    } in
    let after = record first {
      consensus_channels = put r (put l ms.consensus_channels);
      channel_to_objective = m;
    } in
    ap
      (λ s.
        get_objective_by_id (record s { channel_to_objective = m })
          (record { prefix = virtual_defund; channel = v }))
      (set_sides first l r)
    ∙ rw
        (
          found v (marshal_virtual_defund o) ms.virtual_defunds,
          ledger_again after l (left_found l r ms.consensus_channels apart),
          ledger_again after r (right_found l r ms.consensus_channels),
        )
        refl
