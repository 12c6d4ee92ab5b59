-- ===== src/Vlan.antt =====
-- `egressVlanInterfaceReconcile` (pkg/server/bridgeconfig.go): the VLAN interfaces of a bridge,
-- which the daemon creates and deletes.
pub mod Spares
pub mod NilLink
pub mod Joined
pub mod Removed
use bridge_operator.Prelude.{
  Bool, Error, List, Option, Result, String, err, failed, false, if◌then◌else◌, int_eq, nat_eq,
  none, not_found, ok, some, string_eq, true, ◌==◌,
}
use bridge_operator.Egress.{difference, is_nil}
use bridge_operator.Netlink.{
  Kernel, Link, VlanProtocol, link_add, link_del, link_set_master, link_set_no_master, link_set_up,
  vlan_device, vlan_protocol_8021ad, vlan_protocol_8021q,
}
use bridge_operator.Ports.{is_port_managed, remove_port, set_port}
use bridge_operator.State.{M, deref, for_each, gets, netlink, pure, ◌>>=◌, ◌>>◌}
use bridge_operator.Types.{EgressVlanInterface, interface_eq, vlan_interface_eq}
use bridge_operator.VlanName.{generate_egress_vlan_interface_name}

unfoldable pub vlan_protocol : EgressVlanInterface → VlanProtocol
vlan_protocol v = if v.protocol == "802.1ad" then vlan_protocol_8021ad else vlan_protocol_8021q

-- The `netlink.Vlan` that is to be created, under the parent that was looked up.
unfoldable pub new_vlan : EgressVlanInterface → Link → Link
unfolding vlan_protocol
new_vlan v parent = record {
  index = 0;
  name = generate_egress_vlan_interface_name v;
  master_index = 0;
  parent_index = parent.index;
  tx_q_len = 1000;
  device = vlan_device v.id (vlan_protocol v);
}

module _ {W : Type 0} (k : Kernel W) where
  -- Takes the master from a VLAN interface that was looked up, and deletes the interface; true
  -- if both succeed.
  unfoldable pub delete_vlan : Result Link → M W Bool
  delete_vlan (err e) = pure false
  delete_vlan (ok link) = if link.master_index == 0 then pure false else do
    e ← netlink k (link_set_no_master link)
    if is_nil e then (do e' ← netlink k (link_del link); pure (is_nil e')) else pure false

  unfoldable pub release_vlan : Link → String → M W Bool
  unfolding delete_vlan
  release_vlan br port = do
    managed ← gets (λ s. is_port_managed br.name port s.managed_bridge_ports)
    if managed
        then (do found ← gets (λ s. k.link_by_name port s.world); delete_vlan found)
        else pure true

  -- The body of the loop over `tobeRemove`.
  unfoldable pub remove_vlan_interface : Link → EgressVlanInterface → M W (Unit {0})
  unfolding release_vlan
  remove_vlan_interface br v = do
    released ← release_vlan br (generate_egress_vlan_interface_name v)
    if released then remove_port br.name (generate_egress_vlan_interface_name v) else pure tt

  -- Creates the interface and sets it up; none where the source continues.
  unfoldable pub create_vlan : Link → Link → M W (Option (Option Link))
  create_vlan br new = do
    e ← netlink k (link_add new)
    if is_nil e
        then (do
          link ← gets (λ s. k.ensure_index new s.world)
          e' ← netlink k (link_set_up link)
          if is_nil e'
              then (do set_port br.name new.name true; pure (some (some link)))
              else pure none)
        else pure none

  -- The link that goes on: it is nil if the lookup failed otherwise than by `LinkNotFoundError`.
  unfoldable pub ensure_vlan : Link → Link → Result Link → M W (Option (Option Link))
  unfolding create_vlan
  ensure_vlan br new (err not_found) = create_vlan br new
  ensure_vlan br new (err (failed t)) = do set_port br.name new.name false; pure (some none)
  ensure_vlan br new (ok link) = do set_port br.name new.name false; pure (some (some link))

  unfoldable pub join_bridge : Link → Option (Option Link) → M W (Unit {0})
  join_bridge br none = pure tt
  join_bridge br (some pointer) = do
    link ← deref pointer
    if link.master_index == br.index
        then pure tt
        else do netlink k (link_set_master link br); pure tt

  unfoldable pub add_below : Link → EgressVlanInterface → Result Link → M W (Unit {0})
  unfolding ensure_vlan join_bridge new_vlan
  add_below br v (err e) = pure tt
  add_below br v (ok parent) = do
    found ← gets (λ s. k.link_by_name (generate_egress_vlan_interface_name v) s.world)
    link ← ensure_vlan br (new_vlan v parent) found
    join_bridge br link

  -- The body of the loop over `tobeAdd`.
  unfoldable pub add_vlan_interface : Link → EgressVlanInterface → M W (Unit {0})
  unfolding add_below
  add_vlan_interface br v = do
    parent ← gets (λ s. k.link_by_name v.name s.world)
    add_below br v parent

  unfoldable pub egress_vlan_interface_reconcile :
      Link → List EgressVlanInterface → List EgressVlanInterface → M W (Option Error)
  egress_vlan_interface_reconcile br old_list new_list = do
    for_each (difference old_list new_list) (remove_vlan_interface br)
    for_each (difference new_list old_list) (add_vlan_interface br)
    pure none
