-- ===== src/Server/Joins.antt =====
-- `OnBridgeConfigUpdate` (pkg/server/server.go) and the VLAN interfaces that are newly wanted.
use bridge_operator.Prelude.{
  Bool, List, ap, contains, false, int_eq, nat_eq, none, ok, refl, some, string_eq, true, ◌∙◌, ◌≡◌,
}
use bridge_operator.Bridge.{bridge_update, update_found}
use bridge_operator.Bridge.Configured.{GrantsBridge, filtering-Safe, is_there-wanted_master}
use bridge_operator.Cluster.{Cluster}
use bridge_operator.Egress.{difference}
use bridge_operator.Egress.Difference.{IsSublistOf, contains-difference, difference-sub}
use bridge_operator.Egress.Masters.{master}
use bridge_operator.Egress.Masters.Reconcile.{egress_interface_reconcile-wanted_master}
use bridge_operator.Netlink.{Kernel, Link, bridge_device}
use bridge_operator.Server.{on_bridge_config_update}
use bridge_operator.Server.Update.{update_is_bridge_update}
use bridge_operator.State.{State, for_each, gets, pure, returned, ◌>>=◌}
use bridge_operator.Types.{
  BridgeConfiguration, EgressVlanInterface, interface_eq, vlan_interface_eq,
}
use bridge_operator.Vlan.{egress_vlan_interface_reconcile}
use bridge_operator.Vlan.Joined.{is_there}
use bridge_operator.Vlan.Joined.Loop.{for_each-Steps}
use bridge_operator.VlanName.{generate_egress_vlan_interface_name}

module _ {W : Type 0} (k : Kernel W) (kernel : GrantsBridge k) (c : Cluster W) where
  open kernel use {grants_vlans}
  open grants_vlans use {grants}

  vlans_join :
      (br : Link) (olds news : List EgressVlanInterface) (v : EgressVlanInterface) (s : State W)
      → IsSublistOf olds news
      → contains v news ≡ true
      → contains v olds ≡ false
      → is_there (master k v.name s.world) ≡ true
      → (t : State W) × (egress_vlan_interface_reconcile k br olds news s ≡ returned none t)
        × (master k (generate_egress_vlan_interface_name v) t.world ≡ some br.index)
  unfolding egress_vlan_interface_reconcile for_each pure ◌>>=◌
  vlans_join br olds news v s stay wanted new parent =
      let steps = for_each-Steps k grants_vlans br (difference news olds) s in
      (
        steps.final_state,
        rw (difference-sub olds news stay, steps.all_run) refl,
        steps.all_in v (contains-difference v news olds ∙ rw (wanted, new) refl) parent,
      )

  -- If the bridge of a configuration is there as a bridge, the kernel refuses no call, and the new
  -- configuration has all VLAN interfaces of the old one, then `OnBridgeConfigUpdate` returns, and a
  -- VLAN interface that only the new one names and whose parent is there is in the bridge
  -- afterwards, whether the interface was there before or not.
  pub on_bridge_config_update-joins :
      (old_config config : BridgeConfiguration) (br : Link) (filtering : Bool)
      (v : EgressVlanInterface) (s : State W)
      → k.link_by_name config.metadata.name s.world ≡ ok br
      → br.device ≡ bridge_device (some filtering)
      → IsSublistOf old_config.spec.egress_vlan_interfaces config.spec.egress_vlan_interfaces
      → contains v config.spec.egress_vlan_interfaces ≡ true
      → contains v old_config.spec.egress_vlan_interfaces ≡ false
      → is_there (master k v.name s.world) ≡ true
      → (t : State W) × (on_bridge_config_update k c old_config config s ≡ returned tt t)
        × (master k (generate_egress_vlan_interface_name v) t.world ≡ some br.index)
  unfolding bridge_update update_found gets pure ◌>>=◌
  on_bridge_config_update-joins old_config config br filtering v s found device stay wanted new
        parent =
      let olds = old_config.spec.egress_interfaces in
      let news = config.spec.egress_interfaces in
      let (u, e, m) = egress_interface_reconcile-wanted_master k grants br olds news v.name s in
      let (w, e1, inside) =
        vlans_join br old_config.spec.egress_vlan_interfaces config.spec.egress_vlan_interfaces v u
          stay wanted new
          (ap is_there m ∙ is_there-wanted_master k kernel olds news br v.name s parent) in
      let (a, t, e2, still) =
        (filtering-Safe k kernel (generate_egress_vlan_interface_name v) (some br.index) config br
            filtering device).at
          w inside in
      (t, update_is_bridge_update k c old_config config s ∙ rw (found, e, e1, e2) refl, still)
