-- ===== src/Egress/Masters/Steps.antt =====
-- The step that attaches, of `egressInterfaceReconcile` (pkg/server/bridgeconfig.go): what it does to
-- the master of one port.
use mathlib.Core.Path.{subst}
use text.Mathlib.TextEquality.{eq_iff}
use bridge_operator.Prelude.{
  Bool, Bool-cases, Option, Result, Result-cases, String, [], ap, arith, err, false, if◌then◌else◌,
  inl, inr, int_eq, nat_eq, ok, refl, string_eq, sym, true, ℕ, ◌++◌, ◌==◌, ◌∙◌, ◌∷◌, ◌≡◌,
}
use bridge_operator.Egress.{add_interface, attach, is_nil}
use bridge_operator.Egress.Masters.{
  Brings, GrantsMasters, attached, master, master_of, moved, zeroed,
}
use bridge_operator.Netlink.{Kernel, Link, link_set_master, link_set_no_master}
use bridge_operator.Ports.{is_port_managed, set_port, set_port_management}
use bridge_operator.State.{State, gets, modify_ports, net, netlink, pure, ◌>>=◌}
use bridge_operator.Types.{EgressInterface, interface_eq, vlan_interface_eq}

module _ {W : Type 0} (k : Kernel W) (grants : GrantsMasters k) (br : Link) (p : String) where
  unfoldable pub master_in : State W → Option ℕ
  master_in s = master k p s.world

  -- The master that the port is to have if it is attached.
  unfoldable pub attached_in : State W → Option ℕ
  attached_in s = attached br.index (master k p s.world)

  -- The master that it is to have if it is released.
  unfoldable pub released_in : State W → Option ℕ
  released_in s =
      if is_port_managed br.name p s.managed_bridge_ports
      then zeroed (master k p s.world)
      else master k p s.world

  -- A split on the name of an element.
  pub either :
      {X : Type 0}
      → (q : Bool) (x y z : X) → (q ≡ true → z ≡ x)
      → (q ≡ false → z ≡ y)
      → z ≡ (if q then x else y)
  either true x y z f g = f refl
  either false x y z f g = g refl

  pub master-found :
      (n : String) (w : W) (r : Result Link)
      → k.link_by_name n w ≡ r
      → (n == p) ≡ true
      → master k p w ≡ master_of r
  unfolding master
  master-found n w r found same =
      ap (λ x. master_of (k.link_by_name x w)) (sym ((eq_iff n p).0 same)) ∙ ap master_of found

  -- What setting the master of a link that was looked up does to the master of the port.
  module _ (n : String) (w : W) (link : Link) (found : k.link_by_name n w ≡ ok link) where
    master-attach :
        master k p (k.perform (link_set_master link br) w).1
        ≡ (if n == p then moved br.index (master k p w) else master k p w)
    master-attach =
        grants.master-set_master link br w p
        ∙ ap (λ x. if x == p then moved br.index (master k p w) else master k p w)
            (grants.named n w link found)

    pub master-release :
        master k p (k.perform (link_set_no_master link) w).1
        ≡ (if n == p then moved 0 (master k p w) else master k p w)
    master-release =
        grants.master-set_no_master link w p
        ∙ ap (λ x. if x == p then moved 0 (master k p w) else master k p w)
            (grants.named n w link found)

    attached-free :
        (link.master_index == 0) ≡ true
        → (attached br.index (master k p (k.perform (link_set_master link br) w).1)
            ≡ attached br.index (master k p w))
          × (master k p (k.perform (link_set_master link br) w).1
              ≡ (if n == p then attached br.index (master k p w) else master k p w))
    attached-free free = elim (Bool-cases (n == p)) [
      | inl same ↦
          let m = master-found n w (ok link) found same in
          (
            ground (arith, master-attach, same, m, free),
            ground (arith, master-attach, same, m, free),
          )
      | inr other ↦
          (ap (attached br.index) (master-attach ∙ rw other refl), master-attach ∙ rw other refl)
    ]

  pub attach-Brings :
      (v : EgressInterface) (s : State W) → Brings p attached_in master_in (add_interface k br) v s
  unfolding add_interface attach gets pure ◌>>=◌ netlink set_port modify_ports is_nil attached_in
      master_in
  attach-Brings v s = elim (Result-cases (k.link_by_name v.name s.world)) [
    | inl (e, found) ↦ record {
      after = s;
      runs = rw found refl;
      keeps = refl;
      brings =
          either (v.name == p) _ _ _
            (λ same.
              subst (λ m. m ≡ attached br.index m)
                (sym (master-found v.name s.world (err e) found same)) refl)
            (λ other. refl);
    }
    | inr (link, found) ↦ elim (Bool-cases (link.master_index == 0)) [
      | inr taken ↦ record {
        after = s;
        runs = rw (found, taken) refl;
        keeps = refl;
        brings =
            either (v.name == p) _ _ _
              (λ same.
                subst (λ m. m ≡ attached br.index m)
                  (sym (master-found v.name s.world (ok link) found same)) (ground (arith, taken)))
              (λ other. refl);
      }
      | inl free ↦ elim (Bool-cases (link.master_index == br.index)) [
        | inl same ↦ record {
          after = record s {
            managed_bridge_ports =
                (set_port_management br.name v.name false s.managed_bridge_ports).1;
          };
          runs = rw (found, free, same) refl;
          keeps = refl;
          brings =
              either (v.name == p) _ _ _
                (λ named_so.
                  subst (λ m. m ≡ attached br.index m)
                    (sym (master-found v.name s.world (ok link) found named_so))
                    (ground (arith, free, same)))
                (λ other. refl);
        }
        | inr other ↦ record {
          after = record s {
            calls = s.calls ++ net (link_set_master link br) ∷ [];
            world = (k.perform (link_set_master link br) s.world).1;
            managed_bridge_ports =
                (set_port_management br.name v.name true s.managed_bridge_ports).1;
          };
          runs = rw (found, free, other, grants.set_master link br s.world) refl;
          keeps = (attached-free v.name s.world link found free).0;
          brings = (attached-free v.name s.world link found free).1;
        }
      ]
    ]
  ]
