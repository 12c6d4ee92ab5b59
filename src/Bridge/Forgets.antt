-- ===== src/Bridge/Forgets.antt =====
-- What the loops over `tobeRemove` (pkg/server/bridgeconfig.go) do to the table of ports.
use bridge_operator.Prelude.{
  Bool, Bool-cases, Result, String, [], ap, err, false, if◌then◌else◌, inl, inr, int_eq, nat_eq, ok,
  refl, string_eq, true, ◌++◌, ◌==◌, ◌∷◌, ◌≡◌, ◌⊎◌,
}
use bridge_operator.Egress.{is_nil, release_port, remove_interface, unset_master}
use bridge_operator.Netlink.{Kernel, Link, NetCall, link_del, link_set_no_master}
use bridge_operator.Ports.{is_port_managed, remove_port, remove_port_management}
use bridge_operator.State.{M, State, gets, modify_ports, net, netlink, pure, returned, ◌>>=◌}
use bridge_operator.Types.{EgressInterface, EgressVlanInterface, interface_eq, vlan_interface_eq}
use bridge_operator.Vlan.{delete_vlan, release_vlan, remove_vlan_interface}
use bridge_operator.VlanName.{generate_egress_vlan_interface_name}

module _ {W : Type 0} (br port : String) where
  -- `m` returns, and has forgotten the port of the bridge, unless the daemon manages it and `m` left
  -- the table as it is.
  pub record Forgets (m : M W (Unit {0})) (s : State W) : Type 0 where
    pub after : State W
    pub runs : m s ≡ returned tt after
    pub table :
        ((is_port_managed br port s.managed_bridge_ports ≡ true)
          × (after.managed_bridge_ports ≡ s.managed_bridge_ports))
        ⊎ (after.managed_bridge_ports ≡ (remove_port_management br port s.managed_bridge_ports).1)

  -- `m` returns, answers whether the port was released, and leaves the table as it is; it fails to
  -- release only a port that the daemon manages.
  record Released (m : M W Bool) (s : State W) : Type 0 where
    left : State W
    answer : Bool
    returns : m s ≡ returned answer left
    same_table : left.managed_bridge_ports ≡ s.managed_bridge_ports
    kept : answer ≡ false → is_port_managed br port s.managed_bridge_ports ≡ true

  Released-Forgets :
      (m : M W Bool) (s : State W)
      → Released m s
      → Forgets (m >>= λ released. if released then remove_port br port else pure tt) s
  unfolding remove_port modify_ports pure ◌>>=◌
  Released-Forgets m s r = elim (Bool-cases r.answer) [
    | inl released ↦ record {
      after = record r.left {
        managed_bridge_ports = (remove_port_management br port r.left.managed_bridge_ports).1;
      };
      runs = rw (r.returns, released) refl;
      table = inr (ap (λ m. (remove_port_management br port m).1) r.same_table);
    }
    | inr kept ↦ record {
      after = r.left;
      runs = rw (r.returns, kept) refl;
      table = inl (r.kept kept, r.same_table);
    }
  ]

module _ {W : Type 0} (k : Kernel W) (br : Link) where
  -- The state after a netlink call.
  abbrev called : NetCall → State W → State W
  called c s = record s { calls = s.calls ++ net c ∷ []; world = (k.perform c s.world).1 }

  unset_master-returns :
      (r : Result Link) (s : State W)
      → (b : Bool) × (t : State W) × (unset_master k r s ≡ returned b t)
        × (t.managed_bridge_ports ≡ s.managed_bridge_ports)
  unfolding unset_master netlink pure ◌>>=◌
  unset_master-returns (err e) s = (false, s, refl, refl)
  unset_master-returns (ok link) s = elim (Bool-cases (link.master_index == 0)) [
    | inl free ↦ (false, s, rw free refl, refl)
    | inr taken ↦ (
      is_nil (k.perform (link_set_no_master link) s.world).0,
      called (link_set_no_master link) s,
      rw taken refl,
      refl,
    )
  ]

  delete_vlan-returns :
      (r : Result Link) (s : State W)
      → (b : Bool) × (t : State W) × (delete_vlan k r s ≡ returned b t)
        × (t.managed_bridge_ports ≡ s.managed_bridge_ports)
  unfolding delete_vlan netlink pure ◌>>=◌
  delete_vlan-returns (err e) s = (false, s, refl, refl)
  delete_vlan-returns (ok link) s = elim (Bool-cases (link.master_index == 0)) [
    | inl free ↦ (false, s, rw free refl, refl)
    | inr taken ↦ elim (Bool-cases (is_nil (k.perform (link_set_no_master link) s.world).0)) [
      | inl detached ↦
          let u = called (link_set_no_master link) s in
          (
            is_nil (k.perform (link_del link) u.world).0,
            called (link_del link) u,
            rw (taken, detached) refl,
            refl,
          )
      | inr refused ↦ (false, called (link_set_no_master link) s, rw (taken, refused) refl, refl)
    ]
  ]

  -- What both loops do with a port that is wanted no more.
  asked-Released :
      (f : Result Link → M W Bool)
      → ((r : Result Link) (s : State W)
          → (b : Bool) × (t : State W) × (f r s ≡ returned b t)
            × (t.managed_bridge_ports ≡ s.managed_bridge_ports))
      → (port : String) (s : State W)
      → Released br.name port
          (gets (λ s. is_port_managed br.name port s.managed_bridge_ports) >>= λ managed.
            if managed then gets (λ s. k.link_by_name port s.world) >>= f else pure true)
          s
  unfolding gets pure ◌>>=◌
  asked-Released f f_returns port s =
      elim (Bool-cases (is_port_managed br.name port s.managed_bridge_ports)) [
        | inl managed ↦
            let (b, t, e, same) = f_returns (k.link_by_name port s.world) s in
            record {
              left = t;
              answer = b;
              returns = rw managed e;
              same_table = same;
              kept = λ _. managed;
            }
        | inr unmanaged ↦ record {
          left = s;
          answer = true;
          returns = rw unmanaged refl;
          same_table = refl;
          kept = λ h. cc;
        }
      ]

  pub remove_interface-Forgets :
      (v : EgressInterface) (s : State W) → Forgets br.name v.name (remove_interface k br v) s
  unfolding remove_interface release_port
  remove_interface-Forgets v s =
      Released-Forgets br.name v.name (release_port k br v.name) s
        (asked-Released (unset_master k) unset_master-returns v.name s)

  pub remove_vlan_interface-Forgets :
      (v : EgressVlanInterface) (s : State W)
      → Forgets br.name (generate_egress_vlan_interface_name v) (remove_vlan_interface k br v) s
  unfolding remove_vlan_interface release_vlan
  remove_vlan_interface-Forgets v s =
      let name = generate_egress_vlan_interface_name v in
      Released-Forgets br.name name (release_vlan k br name) s
        (asked-Released (delete_vlan k) delete_vlan-returns name s)
