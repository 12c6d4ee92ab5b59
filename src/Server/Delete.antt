-- ===== src/Server/Delete.antt =====
-- `OnBridgeConfigDelete` and the two tables.
use bridge_operator.Prelude.{
  Bool, List, Option, Option-cases, Result, String, [], ap, arith, err, false, if◌then◌else◌, inl,
  inr, int_eq, nat_eq, none, ok, refl, some, string_eq, true, ◌==◌, ◌∙◌, ◌≡◌,
}
use bridge_operator.Bridge.{bridge_unconfigured, delete_managed, unconfigure_found}
use bridge_operator.Cluster.{Cluster}
use bridge_operator.Egress.{
  difference, egress_interface_reconcile, release_port, remove_interface, unset_master,
}
use bridge_operator.Egress.Spares.{IsNamed}
use bridge_operator.GoMap.{GoMap, has, lookup, put, remove}
use bridge_operator.GoMap.Laws.{lookup-put, lookup-remove, lookup-remove_if}
use bridge_operator.Netlink.{Kernel, Link, NetCall}
use bridge_operator.Ports.{
  is_bridge_managed, remove_port, remove_port_management, unset_bridge_management,
}
use bridge_operator.Server.{
  bridge_conf_matches_node_label, delete_bridge, get_node, on_bridge_config_delete,
}
use bridge_operator.State.{
  Ports, State, for_each, gets, modify_bridges, modify_ports, netlink, pure, returned, ◌>>=◌,
}
use bridge_operator.State.Safe.{Safe, Safe-bind, Safe-for_each, safe_rules}
use bridge_operator.Types.{
  BridgeConfiguration, EgressInterface, EgressVlanInterface, interface_eq, vlan_interface_eq,
}
use bridge_operator.Vlan.{
  delete_vlan, egress_vlan_interface_reconcile, release_vlan, remove_vlan_interface,
}
use bridge_operator.VlanName.{generate_egress_vlan_interface_name}

remove_port_management-other :
    (br port b : String) (m : Ports)
    → (br == b) ≡ false
    → lookup b (remove_port_management br port m).1 ≡ lookup b m
unfolding remove_port_management
remove_port_management-other br port b m other = elim (Option-cases (lookup br m)) [
  | inl e ↦ ground (arith, e)
  | inr (ports, e) ↦ ground (arith, e, other, lookup-put br b (remove port ports) m)
]

lookup-clear :
    (name b : String) (m : Ports)
    → lookup b (remove name (if has name m then remove name (put name [] m) else m))
      ≡ (if name == b then none else lookup b m)
lookup-clear name b m = ground (
  arith,
  lookup-remove name b m,
  lookup-remove name b (remove name (put name [] m)),
  lookup-remove name b (put name [] m),
  lookup-put name b [] m,
)

module _ {W : Type 0} (k : Kernel W) (named : IsNamed k) (name : String) (s : State W) where
  -- The tables of `t` are those of `s`, but for the ports of the bridge `name`.
  record SameRest (t : State W) : Type 0 where
    managed_as : (b : String) → lookup b t.managed_bridges ≡ lookup b s.managed_bridges
    ports_as :
        (b : String)
        → (name == b) ≡ false
        → lookup b t.managed_bridge_ports ≡ lookup b s.managed_bridge_ports

  netlink-SameRest : (a : NetCall) → Safe SameRest (netlink k a)
  unfolding netlink
  netlink-SameRest a = record {
    at = λ t h. (_, _, refl, record { managed_as = h.managed_as; ports_as = h.ports_as });
  }

  remove_port-SameRest :
      (br port : String) → br ≡ name → Safe {W = W} SameRest (remove_port br port)
  unfolding remove_port modify_ports
  remove_port-SameRest br port same = record {
    at = λ t h. (
      _,
      _,
      refl,
      record {
        managed_as = h.managed_as;
        ports_as = λ b other.
            remove_port_management-other br port b t.managed_bridge_ports
              (ap (λ n. n == b) same ∙ other)
            ∙ h.ports_as b other;
      },
    );
  }

  unset_master-SameRest : (r : Result Link) → Safe SameRest (unset_master k r)
  unfolding unset_master
  unset_master-SameRest (err e) = search safe_rules
  unset_master-SameRest (ok link) = search (safe_rules, netlink-SameRest)

  remove_interface-SameRest :
      (br : Link) (v : EgressInterface) → br.name ≡ name → Safe SameRest (remove_interface k br v)
  unfolding remove_interface release_port
  remove_interface-SameRest br v same =
      let forgotten = remove_port-SameRest br.name v.name same in
      search (safe_rules, unset_master-SameRest) depth 10

  egress-SameRest :
      (br : Link) (vs : List EgressInterface)
      → br.name ≡ name
      → Safe SameRest (egress_interface_reconcile k br vs [])
  unfolding egress_interface_reconcile difference
  egress-SameRest br vs same =
      Safe-bind (for_each (difference vs []) (remove_interface k br)) _
        (Safe-for_each (difference vs []) (remove_interface k br)
          (λ v. remove_interface-SameRest br v same))
        (λ _. unfold for_each in search safe_rules)

  delete_vlan-SameRest : (r : Result Link) → Safe SameRest (delete_vlan k r)
  unfolding delete_vlan
  delete_vlan-SameRest (err e) = search safe_rules
  delete_vlan-SameRest (ok link) = search (safe_rules, netlink-SameRest) depth 8

  remove_vlan_interface-SameRest :
      (br : Link) (v : EgressVlanInterface)
      → br.name ≡ name
      → Safe SameRest (remove_vlan_interface k br v)
  unfolding remove_vlan_interface release_vlan
  remove_vlan_interface-SameRest br v same =
      let forgotten = remove_port-SameRest br.name (generate_egress_vlan_interface_name v) same in
      search (safe_rules, delete_vlan-SameRest) depth 10

  vlan-SameRest :
      (br : Link) (vs : List EgressVlanInterface)
      → br.name ≡ name
      → Safe SameRest (egress_vlan_interface_reconcile k br vs [])
  unfolding egress_vlan_interface_reconcile difference
  vlan-SameRest br vs same =
      Safe-bind (for_each (difference vs []) (remove_vlan_interface k br)) _
        (Safe-for_each (difference vs []) (remove_vlan_interface k br)
          (λ v. remove_vlan_interface-SameRest br v same))
        (λ _. unfold for_each in search safe_rules)

  delete_managed-SameRest :
      (br : Link) (o : Option (GoMap String Bool)) → Safe SameRest (delete_managed k br o)
  unfolding delete_managed
  delete_managed-SameRest br none = search safe_rules
  delete_managed-SameRest br (some ports) = search (safe_rules, netlink-SameRest)

  unconfigure_found-SameRest :
      (config : BridgeConfiguration) (managed : Bool) (r : Result Link)
      → ((br : Link) → r ≡ ok br → br.name ≡ name)
      → Safe SameRest (unconfigure_found k config managed r)
  unfolding unconfigure_found
  unconfigure_found-SameRest config managed (err e) at_name = search safe_rules
  unconfigure_found-SameRest config managed (ok br) at_name =
      let same = at_name br refl in
      let egress = egress-SameRest br config.spec.egress_interfaces same in
      let vlans = vlan-SameRest br config.spec.egress_vlan_interfaces same in
      search (safe_rules, delete_managed-SameRest) depth 12

  bridge_unconfigured-SameRest :
      (config : BridgeConfiguration) (managed : Bool)
      → config.metadata.name ≡ name
      → Safe SameRest (bridge_unconfigured k config managed)
  unfolding bridge_unconfigured gets ◌>>=◌
  bridge_unconfigured-SameRest config managed same = record {
    at = λ t h.
        (unconfigure_found-SameRest config managed (k.link_by_name config.metadata.name t.world)
            (λ br found. named config.metadata.name t.world br found ∙ same)).at
          t h;
  }

module _ {W : Type 0} (k : Kernel W) (named : IsNamed k) (c : Cluster W) where
  -- What is left of the tables once a bridge is forgotten.
  unset_rest :
      (name : String) (s t : State W)
      → SameRest k named name s t
      → (u : State W) × (unset_bridge_management name t ≡ returned none u)
        × ((b : String)
            → (lookup b u.managed_bridges
                ≡ (if name == b then none else lookup b s.managed_bridges))
              × (lookup b u.managed_bridge_ports
                  ≡ (if name == b then none else lookup b s.managed_bridge_ports)))
  unfolding unset_bridge_management modify_bridges modify_ports pure ◌>>=◌
  unset_rest name s t h = (
    _,
    refl,
    (λ b. (
      ground (arith, lookup-remove_if name b t.managed_bridges, h.managed_as b),
      ground (arith, lookup-clear name b t.managed_bridge_ports, h.ports_as b),
    )),
  )

  -- On a kernel that looks links up by their names: told that a configuration that selects the node
  -- is deleted, the handler returns, its bridge is then in neither table, and what the tables hold of
  -- every other bridge, its ports included, is as before; also where removing the bridge from the
  -- kernel failed.
  pub on_bridge_config_delete-forgets :
      (config : BridgeConfiguration) (s : State W)
      → (bridge_conf_matches_node_label c (c.node_get s.hostname s.world).0 config).0 ≡ true
      → (t : State W) × (on_bridge_config_delete k c config s ≡ returned tt t)
        × ((b : String)
            → (lookup b t.managed_bridges
                ≡ (if config.metadata.name == b then none else lookup b s.managed_bridges))
              × (lookup b t.managed_bridge_ports
                  ≡ (if config.metadata.name == b then none else lookup b s.managed_bridge_ports)))
  unfolding on_bridge_config_delete delete_bridge get_node gets pure ◌>>=◌
  on_bridge_config_delete-forgets config s matches =
      let managed = is_bridge_managed config.metadata.name s in
      let (e, u, removed, h) =
        (bridge_unconfigured-SameRest k named config.metadata.name s config managed refl).at s
          (record { managed_as = λ b. refl; ports_as = λ b _. refl }) in
      let (t, forgotten, rest) = unset_rest config.metadata.name s u h in
      (t, rw (matches, removed, forgotten) refl, rest)
