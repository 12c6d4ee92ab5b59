-- ===== src/Egress/Masters/Release.antt =====
-- The step that releases, of `egressInterfaceReconcile` (pkg/server/bridgeconfig.go): what it does
-- to the master of one port.
use mathlib.Core.Path.{subst}
use text.Mathlib.TextEquality.{eq_iff}
use bridge_operator.Prelude.{
  Bool, Bool-cases, Result-cases, String, [], ap, arith, beq_refl, err, false, inl, inr, int_eq,
  nat_eq, ok, refl, string_eq, sym, true, ◌++◌, ◌==◌, ◌∙◌, ◌∷◌, ◌≡◌,
}
use bridge_operator.Egress.{is_nil, release_port, remove_interface, unset_master}
use bridge_operator.Egress.Masters.{Brings, GrantsMasters, zeroed}
use bridge_operator.Egress.Masters.Steps.{
  either, master-found, master-release, master_in, released_in,
}
use bridge_operator.Netlink.{Kernel, Link, link_set_no_master}
use bridge_operator.Ports.{is_port_managed, remove_port, remove_port_management}
use bridge_operator.Ports.Laws.{
  is_port_managed-port_entry, or_else, port_entry-remove_port_management,
}
use bridge_operator.State.{Ports, State, gets, modify_ports, net, netlink, pure, ◌>>=◌}
use bridge_operator.Types.{EgressInterface, interface_eq, vlan_interface_eq}

module _ {W : Type 0} (k : Kernel W) (grants : GrantsMasters k) (br : Link) (p : String) where
  unmanaged-remove_port :
      (n : String) (m : Ports)
      → (n == p) ≡ true
      → is_port_managed br.name p (remove_port_management br.name n m).1 ≡ false
  unmanaged-remove_port n m same =
      is_port_managed-port_entry br.name p (remove_port_management br.name n m).1
      ∙ ap (λ x. or_else x false) (port_entry-remove_port_management br.name n br.name p m)
      ∙ rw (beq_refl br.name, same)

  other-remove_port :
      (n : String) (m : Ports)
      → (n == p) ≡ false
      → is_port_managed br.name p (remove_port_management br.name n m).1
        ≡ is_port_managed br.name p m
  other-remove_port n m other =
      rw
        (
          is_port_managed-port_entry br.name p (remove_port_management br.name n m).1,
          port_entry-remove_port_management br.name n br.name p m,
          beq_refl br.name,
          other,
        )
        (sym (is_port_managed-port_entry br.name p m))

  managed-same :
      (n : String) (m : Ports) (b : Bool)
      → (n == p) ≡ true
      → is_port_managed br.name n m ≡ b
      → is_port_managed br.name p m ≡ b
  managed-same n m b same e = ap (λ x. is_port_managed br.name x m) (sym ((eq_iff n p).0 same)) ∙ e

  pub release-Brings :
      (v : EgressInterface) (s : State W)
      → Brings p (released_in k grants br p) (master_in k grants br p) (remove_interface k br) v s
  unfolding remove_interface release_port unset_master gets pure ◌>>=◌ netlink remove_port
      modify_ports is_nil released_in master_in
  release-Brings v s = elim (Bool-cases (is_port_managed br.name v.name s.managed_bridge_ports)) [
    | inr foreign ↦ record {
      after = record s {
        managed_bridge_ports = (remove_port_management br.name v.name s.managed_bridge_ports).1;
      };
      runs = rw foreign refl;
      keeps = elim (Bool-cases (v.name == p)) [
        | inl same ↦
            rw
              (
                unmanaged-remove_port v.name s.managed_bridge_ports same,
                managed-same v.name s.managed_bridge_ports false same foreign,
              )
              refl
        | inr other ↦ rw (other-remove_port v.name s.managed_bridge_ports other) refl
      ];
      brings =
          either k grants br p (v.name == p) _ _ _
            (λ same. rw (managed-same v.name s.managed_bridge_ports false same foreign) refl)
            (λ other. refl);
    }
    | inl ours ↦ elim (Result-cases (k.link_by_name v.name s.world)) [
      | inl (e, found) ↦ record {
        after = s;
        runs = rw (ours, found) refl;
        keeps = refl;
        brings =
            either k grants br p (v.name == p) _ _ _
              (λ same. rw (managed-same v.name s.managed_bridge_ports true same ours) (
                subst (λ m. m ≡ zeroed m)
                  (sym (master-found k grants br p v.name s.world (err e) found same)) refl))
              (λ other. refl);
      }
      | inr (link, found) ↦ elim (Bool-cases (link.master_index == 0)) [
        | inl free ↦ record {
          after = s;
          runs = rw (ours, found, free) refl;
          keeps = refl;
          brings =
              either k grants br p (v.name == p) _ _ _
                (λ same. rw (managed-same v.name s.managed_bridge_ports true same ours) (
                  subst (λ m. m ≡ zeroed m)
                    (sym (master-found k grants br p v.name s.world (ok link) found same))
                    (ground (arith, free))))
                (λ other. refl);
        }
        | inr taken ↦ record {
          after = record s {
            calls = s.calls ++ net (link_set_no_master link) ∷ [];
            world = (k.perform (link_set_no_master link) s.world).1;
            managed_bridge_ports = (remove_port_management br.name v.name s.managed_bridge_ports).1;
          };
          runs = rw (ours, found, taken, grants.set_no_master link s.world) refl;
          keeps = elim (Bool-cases (v.name == p)) [
            | inl same ↦
                rw
                  (
                    unmanaged-remove_port v.name s.managed_bridge_ports same,
                    managed-same v.name s.managed_bridge_ports true same ours,
                    master-release k grants br p v.name s.world link found,
                    same,
                    master-found k grants br p v.name s.world (ok link) found same,
                  )
                  refl
            | inr other ↦
                rw
                  (
                    other-remove_port v.name s.managed_bridge_ports other,
                    master-release k grants br p v.name s.world link found,
                    other,
                  )
                  refl
          ];
          brings =
              master-release k grants br p v.name s.world link found
              ∙ elim (Bool-cases (v.name == p)) [
                | inl same ↦
                    rw
                      (
                        same,
                        managed-same v.name s.managed_bridge_ports true same ours,
                        master-found k grants br p v.name s.world (ok link) found same,
                      )
                      refl
                | inr other ↦ rw other refl
              ];
        }
      ]
    ]
  ]
