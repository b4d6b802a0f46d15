-- ===== src/Tests/Store.antt =====
-- A virtual defunding objective through the store.
use go_nitro.State.Signing
use go_nitro.State.Hashing
use go_nitro.Base.{◌≡◌, ◌^◌, ◌+◌, refl, none, [], ◌∷◌, ok}
use go_nitro.Consensus.Serde.{marshal_consensus_channel}
use go_nitro.Protocols.{ObjectiveId, virtual_defund}
use go_nitro.Store.{
  MemStore, of_virtual_defund, new_mem_store, set_objective, get_objective_by_id, objective_id,
  owns_channel, status_of,
}
use go_nitro.Store.Serde.{marshal_virtual_defund}
use go_nitro.Store.Reading.{reread}
use go_nitro.Store.RoundTrip.{get_objective_by_id-set_objective}
use go_nitro.Store.Ownership.{Owners, set_objective-Owners}
use go_nitro.Tests.Data.{toy, leader_key}
use go_nitro.Tests.VirtualDefund.{alice, ledger}

abbrev pub empty : MemStore
empty = record {
  direct_funds = [];
  direct_defunds = [];
  virtual_funds = [];
  virtual_defunds = [];
  channels = [];
  consensus_channels = [];
  channel_to_objective = [];
  key = leader_key;
  address = 11;
}

empty_run : new_mem_store toy leader_key ≡ ok empty
unfolding new_mem_store Signing.address_from_secret_key
empty_run = refl

abbrev pub id : ObjectiveId
id = record { prefix = virtual_defund; channel = 2 ^ 255 + 3 }

abbrev pub after : MemStore
after = record empty {
  virtual_defunds = (2 ^ 255 + 3, marshal_virtual_defund alice) ∷ [];
  consensus_channels = (2 ^ 255 + 2, marshal_consensus_channel ledger) ∷ [];
  channel_to_objective = (2 ^ 255 + 3, id) ∷ [];
}

id_run : objective_id toy (of_virtual_defund alice) ≡ ok id
unfolding objective_id Hashing.channel_id
id_run = refl

owns_run : owns_channel toy (of_virtual_defund alice) ≡ ok (2 ^ 255 + 3)
unfolding owns_channel Hashing.channel_id
owns_run = refl

set_run : set_objective toy empty (of_virtual_defund alice) ≡ ok (after, none)
unfolding set_objective Hashing.channel_id
set_run = refl

get_objective_by_id-set_objective_example :
    get_objective_by_id after id ≡ ok (reread (of_virtual_defund alice))
get_objective_by_id-set_objective_example =
    get_objective_by_id-set_objective toy empty after (of_virtual_defund alice) id none tt id_run
      set_run

set_objective-Owners_example : Owners empty after id (2 ^ 255 + 3) alice.status none
unfolding status_of
set_objective-Owners_example =
    set_objective-Owners toy empty after (of_virtual_defund alice) id (2 ^ 255 + 3) none id_run
      owns_run set_run
