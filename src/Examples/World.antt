-- ===== src/Examples/World.antt =====
-- A small kernel and a small cluster to run the daemon on. The world is the list of links.
use text.Mathlib.TextEquality.{eq_iff}
use bridge_operator.Prelude.{
  Bool, Bool-cases, Error, List, Option, Result, String, [], ap, arith, err, failed, false,
  if◌then◌else◌, inl, inr, int_eq, keep, length, nat_eq, none, not, not_found, ok, refl, some,
  string_eq, suc, sym, true, ℕ, ◌++◌, ◌==◌, ◌∙◌, ◌∷◌, ◌≡◌, ◌≢◌,
}
use bridge_operator.Cluster.{Cluster}
use bridge_operator.Egress.Spares.{IsNamed}
use bridge_operator.InfoUpdate.{new_bridge_info, scheme_group_version}
use bridge_operator.Netlink.{
  BridgeVlanInfo, Device, Kernel, Link, NetCall, bridge_set_vlan_filtering, bridge_vlan_add,
  bridge_vlan_del, link_add, link_del, link_set_master, link_set_no_master, link_set_up,
}
use bridge_operator.State.{Ports, State}
use bridge_operator.Tracker.{name_eq}
use bridge_operator.Vlan.Spares.{KeepsNames}
use bridge_operator.Types.{
  BridgeConfiguration, BridgeInformation, EgressInterface, EgressVlanInterface, interface_eq,
  vlan_interface_eq,
}

abbrev pub World : Type 0
World = List Link

abbrev pub find_name : String → World → Result Link
find_name n [] = err not_found
find_name n (l ∷ ls) = if l.name == n then ok l else find_name n ls

abbrev find_index : ℕ → World → Result Link
find_index i [] = err not_found
find_index i (l ∷ ls) = if l.index == i then ok l else find_index i ls

abbrev pub with_master : String → ℕ → World → World
with_master n i [] = []
with_master n i (l ∷ ls) =
    (if l.name == n then record l { master_index = i } else l) ∷ with_master n i ls

abbrev is_found : Result Link → Bool
is_found (err e) = false
is_found (ok l) = true

abbrev effect : NetCall → World → Option Error × World
effect (link_add l) w =
    if is_found (find_name l.name w)
    then (some (failed "file exists"), w)
    else (none, w ++ record l { index = suc (length w) } ∷ [])
effect (link_set_up l) w = (none, w)
effect (link_del l) w = (none, keep (λ m. not (m.name == l.name)) w)
effect (link_set_no_master l) w = (none, with_master l.name 0 w)
effect (link_set_master l br) w = (none, with_master l.name br.index w)
effect (bridge_set_vlan_filtering l on) w = (none, w)
effect (bridge_vlan_add l vid pvid untagged self master) w = (none, w)
effect (bridge_vlan_del l vid pvid untagged self master) w = (none, w)

abbrev or_link : Link → Result Link → Link
or_link l (err e) = l
or_link l (ok m) = m

-- Every port carries VLAN 1, untagged.
abbrev pub default_vlan : BridgeVlanInfo
default_vlan = record { vid = 1; port_vid = true; egress_untag = true }

abbrev pub small_kernel : Kernel World
small_kernel = record {
  link_list = λ w. ok w;
  link_by_name = find_name;
  link_by_index = find_index;
  bridge_vlan_list = λ w. ok (λ i. default_vlan ∷ []);
  perform = effect;
  ensure_index = λ l w. or_link l (find_name l.name w);
}

same_link : {l m : Link} → ok l ≡ ok m → l ≡ m
same_link e = cc

find_name-name : (n : String) (w : World) (l : Link) → find_name n w ≡ ok l → l.name ≡ n
find_name-name n [] l e = cc
find_name-name n (m ∷ ls) l e = elim (Bool-cases (m.name == n)) [
  | inl h ↦ ap (λ x. x.name) (sym (same_link (rw h at e))) ∙ (eq_iff m.name n).0 h
  | inr h ↦ find_name-name n ls l (rw h at e)
]

pub small_kernel-IsNamed : IsNamed small_kernel
small_kernel-IsNamed = find_name-name

or_link-name :
    (l : Link) (r : Result Link)
    → ((m : Link) → r ≡ ok m → m.name ≡ l.name)
    → (or_link l r).name ≡ l.name
or_link-name l (err e) h = refl
or_link-name l (ok m) h = h m refl

pub small_kernel-KeepsNames : KeepsNames small_kernel
small_kernel-KeepsNames l w = or_link-name l (find_name l.name w) (find_name-name l.name w)

abbrev pub blank_info : BridgeInformation
blank_info = new_bridge_info ""

abbrev pub link : String → ℕ → ℕ → Device → Link
link name index master_index device = record {
  index = index;
  name = name;
  master_index = master_index;
  parent_index = 0;
  tx_q_len = 1000;
  device = device;
}

abbrev pub config : String → List EgressInterface → List EgressVlanInterface → BridgeConfiguration
config name interfaces vlans = record {
  type_meta = record { kind = "BridgeConfiguration"; api_version = scheme_group_version };
  metadata = record { name = name; namespace = "" };
  spec = record {
    node_selector = record { match_labels = []; match_expressions = [] };
    egress_vlan_interfaces = vlans;
    egress_interfaces = interfaces;
  };
}

abbrev pub interface : String → EgressInterface
interface name = record { name = name }

-- A cluster with these configurations, whose selectors all select every node.
abbrev pub small_cluster : List BridgeConfiguration → Cluster World
small_cluster configs = record {
  node_get = λ name w. (record { labels = [] }, none);
  config_list = λ w. ok configs;
  info_list = λ w. ok [];
  info_get = λ name w. (new_bridge_info name, some not_found);
  request = λ call w. (blank_info, none, w);
  selector_size = λ s. 0;
  label_selector_as_map = λ s. ok [];
  selector_matches = λ selector labels. true;
}

abbrev pub server : Ports → World → State World
server ports w = record {
  hostname = "node1";
  managed_bridges = ("br0", true) ∷ [];
  managed_bridge_ports = ports;
  calls = [];
  world = w;
}

pub differs : (a b : String) → (a == b) ≡ false → a ≢ b
differs a b h e = ground (arith, h, e, eq_iff a b)
