-- ===== src/Server/Masters.antt =====
-- `OnBridgeConfigUpdate` (pkg/server/server.go) where the VLAN interfaces stay as they are.
use bridge_operator.Prelude.{
  string_eq, nat_eq, int_eq, Bool, List, String, none, ok, refl, some, ◌∙◌, ◌≡◌,
}
use bridge_operator.Bridge.{bridge_update, update_found}
use bridge_operator.Bridge.Configured.{GrantsBridge, filtering-Safe}
use bridge_operator.Cluster.{Cluster}
use bridge_operator.Egress.Difference.{IsSublistOf, difference-sub}
use bridge_operator.Egress.Masters.{master}
use bridge_operator.Egress.Masters.Reconcile.{
  egress_interface_reconcile-wanted_master, wanted_master,
}
use bridge_operator.Netlink.{Kernel, Link, bridge_device}
use bridge_operator.Server.{on_bridge_config_update}
use bridge_operator.Server.Update.{update_is_bridge_update}
use bridge_operator.State.{State, for_each, gets, pure, returned, ◌>>=◌}
use bridge_operator.Types.{
  vlan_interface_eq, interface_eq, BridgeConfiguration, EgressVlanInterface,
}
use bridge_operator.Vlan.{egress_vlan_interface_reconcile}

module _ {W : Type 0} (k : Kernel W) where
  -- `egressVlanInterfaceReconcile` between lists with the same elements makes no call.
  egress_vlan_interface_reconcile-same :
      (br : Link) (olds news : List EgressVlanInterface) (s : State W)
      → IsSublistOf olds news
      → IsSublistOf news olds
      → egress_vlan_interface_reconcile k br olds news s ≡ returned none s
  unfolding egress_vlan_interface_reconcile for_each ◌>>=◌
  egress_vlan_interface_reconcile-same br olds news s h g =
      rw (difference-sub olds news h, difference-sub news olds g)

module _ {W : Type 0} (k : Kernel W) (kernel : GrantsBridge k) (c : Cluster W) where
  open kernel use {grants_vlans}
  open grants_vlans use {grants}

  update_found-wanted_master :
      (old_config config : BridgeConfiguration) (br : Link) (filtering : Bool) (p : String)
      (s : State W)
      → br.device ≡ bridge_device (some filtering)
      → IsSublistOf old_config.spec.egress_vlan_interfaces config.spec.egress_vlan_interfaces
      → IsSublistOf config.spec.egress_vlan_interfaces old_config.spec.egress_vlan_interfaces
      → (t : State W) × (update_found k (some old_config) config (ok br) s ≡ returned none t)
        × (master k p t.world
            ≡ wanted_master k br old_config.spec.egress_interfaces config.spec.egress_interfaces p
                s)
  unfolding update_found pure ◌>>=◌
  update_found-wanted_master old_config config br filtering p s device gone new =
      let olds = old_config.spec.egress_interfaces in
      let news = config.spec.egress_interfaces in
      let (t1, e1, m1) = egress_interface_reconcile-wanted_master k grants br olds news p s in
      let e2 =
        egress_vlan_interface_reconcile-same k br old_config.spec.egress_vlan_interfaces
          config.spec.egress_vlan_interfaces t1 gone new in
      let (a, t3, e3, m3) =
        (filtering-Safe k kernel p (wanted_master k br olds news p s) config br filtering device).at
          t1 m1 in
      (t3, rw (e1, e2, e3) refl, m3)

  -- If the bridge of a configuration is there as a bridge, the kernel refuses no call, and the old
  -- and the new configuration have the same VLAN interfaces, in whichever order, then
  -- `OnBridgeConfigUpdate` returns, and leaves each link with the master that it is to have: a
  -- physical interface that is newly wanted and has no master gets the bridge, one that is wanted no
  -- more and that the daemon manages as a port of the bridge gets none, and any other link keeps its
  -- master, also once the VLAN ids were reconciled.
  pub on_bridge_config_update-wanted_master :
      (old_config config : BridgeConfiguration) (br : Link) (filtering : Bool) (p : String)
      (s : State W)
      → k.link_by_name config.metadata.name s.world ≡ ok br
      → br.device ≡ bridge_device (some filtering)
      → IsSublistOf old_config.spec.egress_vlan_interfaces config.spec.egress_vlan_interfaces
      → IsSublistOf config.spec.egress_vlan_interfaces old_config.spec.egress_vlan_interfaces
      → (t : State W) × (on_bridge_config_update k c old_config config s ≡ returned tt t)
        × (master k p t.world
            ≡ wanted_master k br old_config.spec.egress_interfaces config.spec.egress_interfaces p
                s)
  unfolding bridge_update gets pure ◌>>=◌
  on_bridge_config_update-wanted_master old_config config br filtering p s found device gone new =
      let (t, e, m) =
        update_found-wanted_master old_config config br filtering p s device gone new in
      (t, update_is_bridge_update k c old_config config s ∙ rw (found, e) refl, m)
