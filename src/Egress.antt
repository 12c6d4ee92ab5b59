-- ===== src/Egress.antt =====
-- `egressInterfaceReconcile` (pkg/server/bridgeconfig.go): the physical interfaces of a bridge.
pub mod Rules
pub mod Spares
pub mod Difference
pub mod Records
pub mod Masters
use bridge_operator.Prelude.{
  Bool, Eq, Error, List, Option, Result, String, contains, err, false, if◌then◌else◌, int_eq, keep,
  nat_eq, none, not, ok, some, string_eq, true, ◌==◌,
}
use bridge_operator.Netlink.{Kernel, Link, link_set_master, link_set_no_master}
use bridge_operator.Ports.{is_port_managed, remove_port, set_port}
use bridge_operator.State.{M, for_each, gets, netlink, pure, ◌>>=◌, ◌>>◌}
use bridge_operator.Types.{EgressInterface, interface_eq, vlan_interface_eq}

-- The two loops that fill `tobeRemove` and `tobeAdd`: the elements of one list that are not in
-- another.
unfoldable pub difference : {A : Type 0} ⦃e : Eq A⦄ → List A → List A → List A
unfolding keep contains
difference xs ys = keep (λ x. not (contains x ys)) xs

unfoldable pub is_nil : Option Error → Bool
is_nil none = true
is_nil (some e) = false

module _ {W : Type 0} (k : Kernel W) where
  -- Takes the master from a port that was looked up; true if that succeeds.
  unfoldable pub unset_master : Result Link → M W Bool
  unset_master (err e) = pure false
  unset_master (ok link) =
      if link.master_index == 0
      then pure false
      else do e ← netlink k (link_set_no_master link); pure (is_nil e)

  -- Detaches a port if the daemon manages it; false where the source continues.
  unfoldable pub release_port : Link → String → M W Bool
  unfolding unset_master
  release_port br port = do
    managed ← gets (λ s. is_port_managed br.name port s.managed_bridge_ports)
    if managed
        then (do found ← gets (λ s. k.link_by_name port s.world); unset_master found)
        else pure true

  -- The body of the loop over `tobeRemove`.
  unfoldable pub remove_interface : Link → EgressInterface → M W (Unit {0})
  unfolding release_port
  remove_interface br v = do
    released ← release_port br v.name
    if released then remove_port br.name v.name else pure tt

  unfoldable pub attach : Link → String → Result Link → M W (Unit {0})
  attach br port (err e) = pure tt
  attach br port (ok link) =
      if not (link.master_index == 0)
      then pure tt
      else if link.master_index == br.index
      then set_port br.name port false
      else do
        e ← netlink k (link_set_master link br)
        if is_nil e then set_port br.name port true else pure tt

  -- The body of the loop over `tobeAdd`.
  unfoldable pub add_interface : Link → EgressInterface → M W (Unit {0})
  unfolding attach
  add_interface br v = do found ← gets (λ s. k.link_by_name v.name s.world); attach br v.name found

  unfoldable pub egress_interface_reconcile :
      Link → List EgressInterface → List EgressInterface → M W (Option Error)
  egress_interface_reconcile br old_list new_list = do
    for_each (difference old_list new_list) (remove_interface br)
    for_each (difference new_list old_list) (add_interface br)
    pure none
