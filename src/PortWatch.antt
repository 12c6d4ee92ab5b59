-- ===== src/PortWatch.antt =====
-- `bridgePortWatch` (pkg/server/server.go), run periodically: it records the ports that others
-- attached to a bridge, and forgets those that have left.
pub mod Sound
pub mod Complete
use bridge_operator.Prelude.{
  Bool, List, Option, Result, String, [], err, false, if◌then◌else◌, int_eq, nat_eq, none, ok, some,
  string_eq, ℕ, ◌==◌,
}
use bridge_operator.GoMap.{GoMap, has, keys, lookup}
use bridge_operator.Netlink.{Kernel, Link}
use bridge_operator.Ports.{remove_port, set_port}
use bridge_operator.State.{M, for_each, gets, panic, pure, ◌>>=◌, ◌>>◌}
use bridge_operator.Types.{interface_eq, vlan_interface_eq}

module _ {W : Type 0} where
  -- The master of a link with a bridge in the table: the link is recorded as not managed unless
  -- it is recorded already.
  unfoldable pub note_port : String → String → Option (GoMap String Bool) → M W (Unit {0})
  note_port bridge_name link_name none = pure tt
  note_port bridge_name link_name (some ports) =
      if has link_name ports then pure tt else set_port bridge_name link_name false

  unfoldable pub note_master : String → Result Link → M W (Unit {0})
  unfolding note_port
  note_master link_name (err e) = panic
  note_master link_name (ok master_link) = do
    ports ← gets (λ s. lookup master_link.name s.managed_bridge_ports)
    note_port master_link.name link_name ports

abbrev pub ports_of : Option (GoMap String Bool) → List String
ports_of none = []
ports_of (some ports) = keys ports

abbrev pub attached_to : ℕ → Result Link → Bool
attached_to bridge_index (err e) = false
attached_to bridge_index (ok link) = link.master_index == bridge_index

abbrev pub links_of : Result (List Link) → List Link
links_of (err e) = []
links_of (ok links) = links

module _ {W : Type 0} (k : Kernel W) where
  -- The body of the first loop.
  unfoldable pub note_link : Link → M W (Unit {0})
  unfolding note_master
  note_link link = if link.master_index == 0 then pure tt else do
    found ← gets (λ s. k.link_by_index link.master_index s.world)
    note_master link.name found

  -- The body of the inner second loop.
  unfoldable pub check_port : String → ℕ → String → M W (Unit {0})
  check_port bridge_name bridge_index port_name = do
    found ← gets (λ s. k.link_by_name port_name s.world)
    if attached_to bridge_index found then pure tt else remove_port bridge_name port_name

  unfoldable pub check_ports : String → Result Link → List String → M W (Unit {0})
  unfolding check_port
  check_ports bridge_name (err e) port_names = panic
  check_ports bridge_name (ok br) port_names = for_each port_names (check_port bridge_name br.index)

  -- The body of the outer second loop. The inner map is a reference, so its entries are those
  -- of the time when the loop comes to the bridge; the loop itself only deletes the entry at hand.
  unfoldable pub check_bridge : String → M W (Unit {0})
  unfolding check_ports
  check_bridge bridge_name = do
    ports ← gets (λ s. lookup bridge_name s.managed_bridge_ports)
    br ← gets (λ s. k.link_by_name bridge_name s.world)
    check_ports bridge_name br (ports_of ports)

  unfoldable pub bridge_port_watch : M W (Unit {0})
  unfolding note_link check_bridge
  bridge_port_watch = do
    links ← gets (λ s. links_of (k.link_list s.world))
    for_each links note_link
    bridge_names ← gets (λ s. keys s.managed_bridge_ports)
    for_each bridge_names check_bridge
