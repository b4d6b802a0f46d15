-- ===== src/Store.antt =====
-- client/engine/store/memstore.go: the store in memory. The one map of objectives, whose keys start
-- with the prefix of a protocol, stands as a map for each protocol, by the destination after it. What
-- is stored is the JSON text of a value (Store/Serde, Channel/Serde, Consensus/Serde).
pub mod Serde
pub mod Reading
pub mod RoundTrip
pub mod Ownership
use go_nitro.Base.{
  ℕ, Bool, true, false, Option, none, some, List, [], ◌∷◌, ◌++◌, Map, lookup, insert, erase, length,
  ◌==◌, if◌then◌else◌, Error, Result, ok, err, or_fail, ◌>>=◌, no_such_objective, no_such_channel,
  channel_owned,
}
use go_nitro.Types.Destination.{Address, Destination, Bytes}
use go_nitro.State.Library.{Library}
use go_nitro.State.Signing.{address_from_secret_key}
use go_nitro.Channel.{Channel}
use go_nitro.Channel.Serde.{JsonChannel, marshal_channel, unmarshal_channel}
use go_nitro.Consensus.Channel.{ConsensusChannel}
use go_nitro.Consensus.Serde.{
  JsonConsensusChannel, marshal_consensus_channel, unmarshal_consensus_channel,
}
use go_nitro.Protocols.{
  ObjectiveId, ObjectiveStatus, is_approved, equal_ids, Protocol, direct_fund, direct_defund,
  virtual_fund, virtual_defund,
}
use go_nitro.Protocols.DirectFund
use go_nitro.Protocols.DirectDefund
use go_nitro.Protocols.VirtualFund
use go_nitro.Protocols.VirtualFund.Ledgers.{Connection}
use go_nitro.Protocols.VirtualDefund
use go_nitro.Store.Serde.{
  JsonDirectFund, JsonDirectDefund, JsonVirtualFund, JsonVirtualDefund, marshal_direct_fund,
  unmarshal_direct_fund, marshal_direct_defund, unmarshal_direct_defund, marshal_virtual_fund,
  unmarshal_virtual_fund, marshal_virtual_defund, unmarshal_virtual_defund,
}

-- `protocols.Objective`
pub data Objective : Type 0 where
  of_direct_fund : DirectFund.Objective → Objective
  of_direct_defund : DirectDefund.Objective → Objective
  of_virtual_fund : VirtualFund.Objective → Objective
  of_virtual_defund : VirtualDefund.Objective → Objective

-- `protocols.Storable`
pub data Storable : Type 0 where
  of_channel : Channel → Storable
  of_ledger : ConsensusChannel → Storable

pub record MemStore : Type 0 where
  pub direct_funds : Map JsonDirectFund
  pub direct_defunds : Map JsonDirectDefund
  pub virtual_funds : Map JsonVirtualFund
  pub virtual_defunds : Map JsonVirtualDefund
  pub channels : Map JsonChannel
  pub consensus_channels : Map JsonConsensusChannel
  pub channel_to_objective : Map ObjectiveId
  pub key : Bytes
  pub address : Address

-- `GetStatus`
unfoldable pub status_of : Objective → ObjectiveStatus
status_of (of_direct_fund o) = o.status
status_of (of_direct_defund o) = o.status
status_of (of_virtual_fund o) = o.status
status_of (of_virtual_defund o) = o.status

abbrev pub ledger_of : Option Connection → List Storable
ledger_of none = []
ledger_of (some c) = of_ledger c.channel ∷ []

abbrev pub ledger_of_side : Option ConsensusChannel → List Storable
ledger_of_side none = []
ledger_of_side (some c) = of_ledger c ∷ []

-- `Related`
unfoldable pub related : Objective → List Storable
related (of_direct_fund o) = of_channel o.c ∷ []
related (of_direct_defund o) = of_channel o.c ∷ []
related (of_virtual_fund o) = of_channel o.v ∷ ledger_of o.to_my_left ++ ledger_of o.to_my_right
related (of_virtual_defund o) = ledger_of_side o.to_my_left ++ ledger_of_side o.to_my_right

-- `SetChannel`, `SetConsensusChannel` and their `Destroy`
unfoldable pub set_channel : MemStore → Channel → MemStore
unfolding marshal_channel
set_channel ms ch = record ms { channels = insert ch.id (marshal_channel ch) ms.channels }

unfoldable pub destroy_channel : MemStore → Destination → MemStore
destroy_channel ms id = record ms { channels = erase id ms.channels }

unfoldable pub set_consensus_channel : MemStore → ConsensusChannel → MemStore
unfolding marshal_consensus_channel
set_consensus_channel ms ch = record ms {
  consensus_channels = insert ch.id (marshal_consensus_channel ch) ms.consensus_channels;
}

unfoldable pub destroy_consensus_channel : MemStore → Destination → MemStore
destroy_consensus_channel ms id = record ms { consensus_channels = erase id ms.consensus_channels }

-- `getChannelById` and `GetConsensusChannelById`
unfoldable pub get_channel_by_id : MemStore → Destination → Result Channel
unfolding unmarshal_channel
get_channel_by_id ms id = do
  json ← or_fail (lookup id ms.channels) no_such_channel
  ok (unmarshal_channel json)

unfoldable pub get_consensus_channel_by_id : MemStore → Destination → Result ConsensusChannel
unfolding unmarshal_consensus_channel
get_consensus_channel_by_id ms id = do
  json ← or_fail (lookup id ms.consensus_channels) no_such_channel
  ok (unmarshal_consensus_channel json)

-- The channel once for each time that the participant stands in it.
once_for_each : Address → Channel → List Address → List Channel
once_for_each participant ch [] = []
once_for_each participant ch (p ∷ ps) =
    let rest = once_for_each participant ch ps in if p == participant then ch ∷ rest else rest

-- `GetChannelsByParticipant`
channels_with : Address → Map JsonChannel → List Channel
unfolding once_for_each unmarshal_channel
channels_with participant [] = []
channels_with participant ((id, json) ∷ m) =
    let ch = unmarshal_channel json in
    once_for_each participant ch ch.fp.participants ++ channels_with participant m

unfoldable pub get_channels_by_participant : MemStore → Address → List Channel
unfolding channels_with
get_channels_by_participant ms participant = channels_with participant ms.channels

-- `GetConsensusChannel`: the first ledger of two participants of which one is the counterparty.
abbrev pub is_counterparty : Address → List Address → Bool
is_counterparty a (p ∷ q ∷ []) = if p == a then true else q == a
is_counterparty a _ = false

unfoldable pub first_ledger : Address → Map JsonConsensusChannel → Option ConsensusChannel
unfolding unmarshal_consensus_channel
first_ledger counterparty [] = none
first_ledger counterparty ((id, json) ∷ m) =
    let ch = unmarshal_consensus_channel json in
    let rest = first_ledger counterparty m in
    if is_counterparty counterparty ch.fp.participants then some ch else rest

unfoldable pub get_consensus_channel : MemStore → Address → Option ConsensusChannel
unfolding first_ledger
get_consensus_channel ms counterparty = first_ledger counterparty ms.consensus_channels

-- `ReleaseChannelFromOwnership`
unfoldable pub release_channel_from_ownership : MemStore → Destination → MemStore
release_channel_from_ownership ms id = record ms {
  channel_to_objective = erase id ms.channel_to_objective;
}

-- One of the related values.
abbrev pub set_storable : MemStore → Storable → MemStore
set_storable ms (of_channel c) = set_channel ms c
set_storable ms (of_ledger c) = set_consensus_channel ms c

-- The loop over the related values.
unfoldable pub set_related : MemStore → List Storable → MemStore
unfolding set_channel set_consensus_channel
set_related ms [] = ms
set_related ms (r ∷ rs) = set_related (set_storable ms r) rs

-- The text of an objective, under its identifier.
unfoldable pub set_text : MemStore → Destination → Objective → MemStore
unfolding marshal_direct_fund marshal_direct_defund marshal_virtual_fund marshal_virtual_defund
set_text ms id (of_direct_fund o) = record ms {
  direct_funds = insert id (marshal_direct_fund o) ms.direct_funds;
}
set_text ms id (of_direct_defund o) = record ms {
  direct_defunds = insert id (marshal_direct_defund o) ms.direct_defunds;
}
set_text ms id (of_virtual_fund o) = record ms {
  virtual_funds = insert id (marshal_virtual_fund o) ms.virtual_funds;
}
set_text ms id (of_virtual_defund o) = record ms {
  virtual_defunds = insert id (marshal_virtual_defund o) ms.virtual_defunds;
}

-- Who owns the channel: an objective that is approved takes one that has no owner. The error is the
-- second result.
unfoldable pub take_ownership :
    MemStore → ObjectiveId → Destination → ObjectiveStatus → MemStore × Option Error
take_ownership ms id owns status =
    let owned : ObjectiveId → MemStore × Option Error =
      λ previous. if equal_ids previous id then (ms, none) else (ms, some channel_owned) in
    let taken : MemStore × Option Error = elim (lookup owns ms.channel_to_objective) [
      | none ↦ (record ms { channel_to_objective = insert owns id ms.channel_to_objective }, none)
      | some previous ↦ owned previous
    ] in
    if is_approved status then taken else (ms, none)

module _ (lib : Library) where
  -- `NewMemStore`
  unfoldable pub new_mem_store : Bytes → Result MemStore
  new_mem_store key = do
    address ← address_from_secret_key lib key
    ok (record {
      direct_funds = [];
      direct_defunds = [];
      virtual_funds = [];
      virtual_defunds = [];
      channels = [];
      consensus_channels = [];
      channel_to_objective = [];
      key = key;
      address = address;
    })

  -- `Id`
  unfoldable pub objective_id : Objective → Result ObjectiveId
  unfolding DirectFund.id_of DirectDefund.id_of VirtualFund.id_of VirtualDefund.id_of
  objective_id (of_direct_fund o) = ok (DirectFund.id_of o)
  objective_id (of_direct_defund o) = ok (DirectDefund.id_of o)
  objective_id (of_virtual_fund o) = ok (VirtualFund.id_of o)
  objective_id (of_virtual_defund o) = VirtualDefund.id_of lib o

  -- `OwnsChannel`
  unfoldable pub owns_channel : Objective → Result Destination
  unfolding VirtualDefund.v_id
  owns_channel (of_direct_fund o) = ok o.c.id
  owns_channel (of_direct_defund o) = ok o.c.id
  owns_channel (of_virtual_fund o) = ok o.v.id
  owns_channel (of_virtual_defund o) = VirtualDefund.v_id lib o

  -- `SetObjective`: the store afterwards, and the error.
  unfoldable pub set_objective : MemStore → Objective → Result (MemStore × Option Error)
  unfolding objective_id owns_channel set_text set_related related take_ownership status_of
  set_objective ms o = do
    id ← objective_id o
    let stored = set_related (set_text ms id.channel o) (related o)
    owns ← owns_channel o
    ok (take_ownership stored id owns (status_of o))

-- The ledger that is stored, for one whose identifier is not zero.
abbrev pub stored_ledger : MemStore → ConsensusChannel → Result ConsensusChannel
stored_ledger ms c =
    let found = get_consensus_channel_by_id ms c.id in if c.id == 0 then ok c else found

abbrev pub populate_connection : MemStore → Option Connection → Result (Option Connection)
populate_connection ms none = ok none
populate_connection ms (some c) = do
  ledger ← stored_ledger ms c.channel
  ok (some (record c { channel = ledger }))

abbrev pub populate_ledger : MemStore → Option ConsensusChannel → Result (Option ConsensusChannel)
populate_ledger ms none = ok none
populate_ledger ms (some c) = do ledger ← stored_ledger ms c; ok (some ledger)

-- `populateChannelData`; what stands beside an error is left out, since no caller reads it.
unfoldable pub populate_channel_data : MemStore → Objective → Result Objective
unfolding get_channel_by_id get_consensus_channel_by_id
populate_channel_data ms (of_direct_fund o) = do
  ch ← get_channel_by_id ms o.c.id
  ok (of_direct_fund (record o { c = ch }))
populate_channel_data ms (of_direct_defund o) = do
  ch ← get_channel_by_id ms o.c.id
  ok (of_direct_defund (record o { c = ch }))
populate_channel_data ms (of_virtual_fund o) = do
  v ← get_channel_by_id ms o.v.id
  left ← populate_connection ms o.to_my_left
  right ← populate_connection ms o.to_my_right
  ok (of_virtual_fund (record o { v = v; to_my_left = left; to_my_right = right }))
populate_channel_data ms (of_virtual_defund o) = do
  left ← populate_ledger ms o.to_my_left
  right ← populate_ledger ms o.to_my_right
  ok (of_virtual_defund (record o { to_my_left = left; to_my_right = right }))

abbrev pub decoded : {J : Type 0} → (J → Objective) → Option J → Option Objective
decoded f none = none
decoded f (some j) = some (f j)

-- `decodeObjective`, which reads the prefix, of the text under an identifier.
unfoldable pub load_objective : MemStore → Protocol → Destination → Option Objective
unfolding unmarshal_direct_fund unmarshal_direct_defund unmarshal_virtual_fund
    unmarshal_virtual_defund
load_objective ms direct_fund id =
    decoded (λ j. of_direct_fund (unmarshal_direct_fund j)) (lookup id ms.direct_funds)
load_objective ms direct_defund id =
    decoded (λ j. of_direct_defund (unmarshal_direct_defund j)) (lookup id ms.direct_defunds)
load_objective ms virtual_fund id =
    decoded (λ j. of_virtual_fund (unmarshal_virtual_fund j)) (lookup id ms.virtual_funds)
load_objective ms virtual_defund id =
    decoded (λ j. of_virtual_defund (unmarshal_virtual_defund j)) (lookup id ms.virtual_defunds)

-- `GetObjectiveById`
unfoldable pub get_objective_by_id : MemStore → ObjectiveId → Result Objective
unfolding load_objective populate_channel_data
get_objective_by_id ms id = do
  o ← or_fail (load_objective ms id.prefix id.channel) no_such_objective
  populate_channel_data ms o

-- `GetObjectiveByChannelId`
unfoldable pub get_objective_by_channel_id : MemStore → Destination → Option Objective
unfolding get_objective_by_id
get_objective_by_channel_id ms channel = elim (lookup channel ms.channel_to_objective) [
  | none ↦ none
  | some id ↦ elim (get_objective_by_id ms id) [ ok o ↦ some o | err e ↦ none ]
]
