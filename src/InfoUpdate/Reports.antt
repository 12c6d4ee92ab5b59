-- ===== src/InfoUpdate/Reports.antt =====
-- The calls of `bridgeInfoUpdate` (pkg/server/server.go): what is reported and what is deleted.
-- The statuses that calls send, and the objects that they delete.
use bridge_operator.Prelude.{
  Bool, List, String, [], int_eq, keep, map, nat_eq, not, string_eq, ◌&&◌, ◌++◌, ◌==◌, ◌∷◌, ◌≡◌,
}
use bridge_operator.Cluster.{Cluster, info_create, info_delete, info_update_status}
use bridge_operator.GoMap.{has}
use bridge_operator.InfoUpdate.{port_statuses, ports_of_bridge}
use bridge_operator.Ports.{is_bridge_managed}
use bridge_operator.State.{Call, Outcome, State, api, net, returned}
use bridge_operator.Types.{
  BridgeInformation, BridgeInformationStatus, interface_eq, vlan_interface_eq,
}

abbrev pub statuses : List Call → List BridgeInformationStatus
statuses [] = []
statuses (api (info_update_status info) ∷ cs) = info.status ∷ statuses cs
statuses (api (info_create info) ∷ cs) = statuses cs
statuses (api (info_delete name) ∷ cs) = statuses cs
statuses (net a ∷ cs) = statuses cs

abbrev pub deletions : List Call → List String
deletions [] = []
deletions (api (info_delete name) ∷ cs) = name ∷ deletions cs
deletions (api (info_create info) ∷ cs) = deletions cs
deletions (api (info_update_status info) ∷ cs) = deletions cs
deletions (net a ∷ cs) = deletions cs

-- A run that returns, having made calls with these statuses and deletions, and nothing else.
pub record Reports {W : Type 0} (s : State W) (sent : List BridgeInformationStatus)
    (deleted : List String) (r : Outcome W (Unit {0})) : Type 0 where
  pub made : List Call
  pub world_after : W
  pub result : r ≡ returned tt (record s { calls = s.calls ++ made; world = world_after })
  pub sent_are : statuses made ≡ sent
  pub deleted_are : deletions made ≡ deleted

-- An object of the node for a bridge that the daemon does not have.
abbrev pub is_orphan : {W : Type 0} → State W → BridgeInformation → Bool
is_orphan s info = info.status.node == s.hostname && not (has info.status.name s.managed_bridges)

abbrev pub orphan_names : {W : Type 0} → State W → List BridgeInformation → List String
orphan_names s infos = map (λ info. info.metadata.name) (keep (is_orphan s) infos)

-- What is known of a bridge.
abbrev pub status_of : {W : Type 0} → State W → String → BridgeInformationStatus
status_of s b = record {
  name = b;
  node = s.hostname;
  managed = is_bridge_managed b s;
  ports = port_statuses (ports_of_bridge b s);
}
