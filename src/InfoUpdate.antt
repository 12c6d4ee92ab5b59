-- ===== src/InfoUpdate.antt =====
-- `bridgeInfoUpdate` and `newBridgeInfo` (pkg/server/server.go), run periodically: it reports the
-- bridges of the node as `BridgeInformation` objects.
pub mod Reports
use Prim.Native.String.{◌++◌}
use bridge_operator.Prelude.{
  Bool, Error, List, Option, Result, String, [], err, false, if◌then◌else◌, int_eq, nat_eq, none,
  not, ok, some, string_eq, ◌&&◌, ◌==◌, ◌∷◌,
}
use bridge_operator.Cluster.{Cluster, info_create, info_delete, info_update_status}
use bridge_operator.GoMap.{GoMap, has, keys, lookup}
use bridge_operator.Ports.{is_bridge_managed}
use bridge_operator.State.{M, State, for_each, gets, pure, request, ◌>>=◌, ◌>>◌}
use bridge_operator.Types.{
  BridgeInformation, BridgeInformationPortStatus, interface_eq, vlan_interface_eq,
}

-- `bridgeconfv1alpha1.SchemeGroupVersion.String()`
abbrev pub scheme_group_version : String
scheme_group_version = "bridgeoperator.k8s.cni.npwg.io/v1alpha1"

unfoldable pub new_bridge_info : String → BridgeInformation
new_bridge_info name = record {
  type_meta = record { kind = "BridgeInformation"; api_version = scheme_group_version };
  metadata = record { name = name; namespace = "" };
  status = record { name = ""; node = ""; managed = false; ports = [] };
}

unfoldable pub port_statuses : GoMap String Bool → List BridgeInformationPortStatus
port_statuses [] = []
port_statuses ((port, managed) ∷ ports) =
    record { name = port; managed = managed } ∷ port_statuses ports

-- `fmt.Sprintf("%s-%s", s.Hostname, bridgeName)`
unfoldable pub info_name : String → String → String
info_name hostname bridge_name = hostname ++ ("-" ++ bridge_name)

module _ {W : Type 0} where
  -- `s.managedBridgePorts[bridgeName]`, which is nil for a bridge that is not there.
  unfoldable pub ports_of_bridge : String → State W → GoMap String Bool
  ports_of_bridge br s = elim (lookup br s.managed_bridge_ports) [ none ↦ [] | some ports ↦ ports ]

  -- The object that is sent: a deep copy with the fields that the daemon sets.
  unfoldable pub filled_info : BridgeInformation → String → State W → BridgeInformation
  unfolding port_statuses ports_of_bridge
  filled_info info bridge_name s = record info {
    type_meta = record { kind = "BridgeInformation"; api_version = scheme_group_version };
    status = record {
      name = bridge_name;
      node = s.hostname;
      managed = is_bridge_managed bridge_name s;
      ports = port_statuses (ports_of_bridge bridge_name s);
    };
  }

abbrev pub infos_of : Result (List BridgeInformation) → List BridgeInformation
infos_of (err e) = []
infos_of (ok infos) = infos

module _ {W : Type 0} (c : Cluster W) where
  -- The body of the loop over the objects of the cluster.
  unfoldable pub delete_orphan : BridgeInformation → M W (Unit {0})
  delete_orphan info = do
    orphan ←
        gets (λ s. info.status.node == s.hostname && not (has info.status.name s.managed_bridges))
    if orphan then (do request c (info_delete info.metadata.name); pure tt) else pure tt

  -- The object of a bridge: created if it cannot be had. It is used also beside an error.
  unfoldable pub found_info : String → BridgeInformation × Option Error → M W BridgeInformation
  unfolding new_bridge_info
  found_info name (info, none) = pure info
  found_info name (info, some e) = do
    created ← request c (info_create (new_bridge_info name))
    pure created.0

  -- The body of the loop over `managedBridges`.
  unfoldable pub report_bridge : String → M W (Unit {0})
  unfolding found_info filled_info info_name
  report_bridge bridge_name = do
    hostname ← gets (λ s. s.hostname)
    got ← gets (λ s. c.info_get (info_name hostname bridge_name) s.world)
    info ← found_info (info_name hostname bridge_name) got
    new_info ← gets (filled_info info bridge_name)
    request c (info_update_status new_info)
    pure tt

  unfoldable pub bridge_info_update : M W (Unit {0})
  unfolding delete_orphan report_bridge
  bridge_info_update = do
    infos ← gets (λ s. infos_of (c.info_list s.world))
    for_each infos delete_orphan
    bridge_names ← gets (λ s. keys s.managed_bridges)
    for_each bridge_names report_bridge
