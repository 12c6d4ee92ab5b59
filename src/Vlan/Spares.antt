-- ===== src/Vlan/Spares.antt =====
-- The interfaces of others in `egressVlanInterfaceReconcile` (pkg/server/bridgeconfig.go).
use mathlib.Core.Path.{subst}
use bridge_operator.Prelude.{
  All, All-map, Bool, Bool-cases, List, Option, Result, String, err, failed, false, inl, inr, none,
  not_found, ok, refl, some, sym, true, ◌∙◌, ◌≡◌, ◌≢◌, string_eq, int_eq, nat_eq,
}
use bridge_operator.Egress.{difference, is_nil}
use bridge_operator.Egress.Rules.{All-difference}
use bridge_operator.Egress.Spares.{
  IsNamed, Spared, Spares, managed_is_other, netlink-Spared, remove_port-Spared,
}
use bridge_operator.Netlink.{
  Kernel, Link, NetCall, link_add, link_del, link_set_master, link_set_no_master, link_set_up,
}
use bridge_operator.Ports.{is_port_managed, remove_port, set_port}
use bridge_operator.State.{State, deref, final, for_each, gets, netlink, panic, pure, ◌>>=◌}
use bridge_operator.State.Gives.{
  Gives, Gives-bind, Gives-gets, Gives-if, Gives-pure, Keeps-Gives, Keeps-after,
}
use bridge_operator.State.Issues.{Issues, modify_ports-Issues, netlink-Issues}
use bridge_operator.State.Keeps.{
  Keeps, Keeps-bind, Keeps-for_each, Keeps-for_each-All, Keeps-gets, Keeps-if, Keeps-pure,
  final-bind, keeps_rules,
}
use bridge_operator.Types.{EgressVlanInterface, interface_eq, vlan_interface_eq}
use bridge_operator.Vlan.{
  add_below, add_vlan_interface, create_vlan, delete_vlan, egress_vlan_interface_reconcile,
  ensure_vlan, join_bridge, new_vlan, release_vlan, remove_vlan_interface,
}
use bridge_operator.VlanName.{generate_egress_vlan_interface_name}

module _ {W : Type 0} (k : Kernel W) {P : State W → Type 0} where
  delete_vlan_ok :
      (link : Link)
      → Keeps P (netlink k (link_set_no_master link))
      → Keeps P (netlink k (link_del link))
      → Keeps P (delete_vlan k (ok link))
  unfolding delete_vlan
  delete_vlan_ok link detach drop = search keeps_rules depth 8

  Keeps-delete_vlan :
      (r : Result Link)
      → ((link : Link) → r ≡ ok link → Keeps P (netlink k (link_set_no_master link)))
      → ((link : Link) → r ≡ ok link → Keeps P (netlink k (link_del link)))
      → Keeps P (delete_vlan k r)
  unfolding delete_vlan
  Keeps-delete_vlan (err e) detach drop = search keeps_rules
  Keeps-delete_vlan (ok link) detach drop = delete_vlan_ok link (detach link refl) (drop link refl)

module _ {W : Type 0} (k : Kernel W) {P : State W → Type 0} where
  delete_vlan-Keeps :
      ((c : NetCall) → Keeps P (netlink k c)) → (r : Result Link) → Keeps P (delete_vlan k r)
  delete_vlan-Keeps calls r =
      Keeps-delete_vlan k r (λ link _. calls (link_set_no_master link))
        (λ link _. calls (link_del link))

  pub Keeps-remove_vlan_interface :
      (br : Link) (v : EgressVlanInterface)
      → ((c : NetCall) → Keeps P (netlink k c))
      → Keeps P (remove_port br.name (generate_egress_vlan_interface_name v))
      → Keeps P (remove_vlan_interface k br v)
  unfolding remove_vlan_interface
  Keeps-remove_vlan_interface br v calls forget =
      search (keeps_rules, delete_vlan-Keeps calls) depth 8

-- `LinkAdd` fills in the index of the link that it is given, and leaves its name.
abbrev pub KeepsNames : {W : Type 0} → Kernel W → Type 0
KeepsNames {W} k = (new : Link) (w : W) → (k.ensure_index new w).name ≡ new.name

-- The interface `n` is none of these VLAN interfaces.
abbrev pub OtherVlans : String → List EgressVlanInterface → Type 0
OtherVlans n vs = All (λ v. generate_egress_vlan_interface_name v ≢ n) vs

-- The link that goes on, if there is one, has the name.
abbrev HasName : String → Option (Option Link) → Type 0
HasName n (some (some link)) = link.name ≡ n
HasName n _ = Unit {0}

abbrev FoundAs : String → Result Link → Type 0
FoundAs n r = (link : Link) → r ≡ ok link → link.name ≡ n

-- Adding the VLAN interface `n`: only a link of this name is given a master.
module _ {W : Type 0} (k : Kernel W) (named : IsNamed k) (indexed : KeepsNames k)
    {P : State W → Type 0} (br : Link) (n : String)
    (adds : (link : Link) → Keeps P (netlink k (link_add link)))
    (ups : (link : Link) → Keeps P (netlink k (link_set_up link)))
    (joins : (link : Link) → link.name ≡ n → Keeps P (netlink k (link_set_master link br)))
    (records : (port : String) (managed : Bool) → Keeps P (set_port br.name port managed)) where
  create_vlan-Gives : (new : Link) → Gives P (HasName new.name) (create_vlan k br new)
  unfolding create_vlan
  create_vlan-Gives new = Gives-bind _ _ (Keeps-Gives (adds new)) (λ e _.
      Gives-if (is_nil e) _ _
        (Gives-bind {Q = λ link. link.name ≡ new.name} _ _ (Gives-gets _ (λ s. indexed new s.world))
          (λ link same. Gives-bind _ _ (Keeps-Gives (ups link)) (λ e' _.
            Gives-if (is_nil e') _ _
              (Gives-bind _ _ (Keeps-Gives (records new.name true))
                (λ _ _. Gives-pure (some (some link)) same))
              (Gives-pure none tt))))
        (Gives-pure none tt))

  ensure_vlan-Gives :
      (new : Link) (r : Result Link)
      → FoundAs new.name r
      → Gives P (HasName new.name) (ensure_vlan k br new r)
  unfolding ensure_vlan
  ensure_vlan-Gives new (err not_found) found = create_vlan-Gives new
  ensure_vlan-Gives new (err (failed t)) found =
      Gives-bind _ _ (Keeps-Gives (records new.name false)) (λ _ _. Gives-pure (some none) tt)
  ensure_vlan-Gives new (ok link) found =
      Gives-bind _ _ (Keeps-Gives (records new.name false))
        (λ _ _. Gives-pure (some (some link)) (found link refl))

  join_link : (link : Link) → link.name ≡ n → Keeps P (join_bridge k br (some (some link)))
  unfolding join_bridge deref
  join_link link h = Keeps-after {Q = λ l. l.name ≡ n} _ _ (Gives-pure link h) (λ l same.
      Keeps-if _ _ _ (Keeps-pure tt) (Keeps-bind _ _ (joins l same) (λ _. Keeps-pure tt)))

  join_bridge-Keeps : (o : Option (Option Link)) → HasName n o → Keeps P (join_bridge k br o)
  unfolding join_bridge deref panic ◌>>=◌
  join_bridge-Keeps none h = Keeps-pure tt
  join_bridge-Keeps (some none) h = record { at = λ s hs. hs }
  join_bridge-Keeps (some (some link)) h = join_link link h

  add_below-Keeps :
      (v : EgressVlanInterface) (r : Result Link)
      → generate_egress_vlan_interface_name v ≡ n
      → Keeps P (add_below k br v r)
  unfolding add_below new_vlan
  add_below-Keeps v (err e) same = search keeps_rules
  add_below-Keeps v (ok parent) same =
      Keeps-after {Q = FoundAs (generate_egress_vlan_interface_name v)} _ _
        (Gives-gets _ (λ s link found. named _ s.world link found))
        (λ r found.
          Keeps-after _ _ (ensure_vlan-Gives (new_vlan v parent) r found)
            (λ o h. join_bridge-Keeps o (subst (λ x. HasName x o) same h)))

  Keeps-add_vlan_interface :
      (v : EgressVlanInterface)
      → generate_egress_vlan_interface_name v ≡ n
      → Keeps P (add_vlan_interface k br v)
  unfolding add_vlan_interface
  Keeps-add_vlan_interface v same = Keeps-bind _ _ (Keeps-gets _) (λ r. add_below-Keeps v r same)

module _ {W : Type 0} (k : Kernel W) (named : IsNamed k) (br : Link) (n : String)
    (s : State W) where
  release_vlan-Spared : (port : String) → Keeps (Spared br.name n s) (release_vlan k br port)
  unfolding release_vlan gets ◌>>=◌
  release_vlan-Spared port = record {
    at = λ t h. elim (Bool-cases (is_port_managed br.name port t.managed_bridge_ports)) [
      | inl managed ↦
          let other = managed_is_other k named br n s port t h managed in
          rw managed (
            (Keeps-delete_vlan k (k.link_by_name port t.world)
                (λ link found.
                  netlink-Spared br.name n s k (link_set_no_master link) (other link found))
                (λ link found. netlink-Spared br.name n s k (link_del link) (other link found))).at
              t h)
      | inr unmanaged ↦ rw unmanaged ((Keeps-pure {P = Spared br.name n s} true).at t h)
    ];
  }

  remove_vlan_interface-Spared :
      (v : EgressVlanInterface) → Keeps (Spared br.name n s) (remove_vlan_interface k br v)
  unfolding remove_vlan_interface
  remove_vlan_interface-Spared v =
      search (keeps_rules, release_vlan-Spared, remove_port-Spared br.name n s)

  add_vlan_interface-Issues :
      KeepsNames k
      → (v : EgressVlanInterface) → generate_egress_vlan_interface_name v ≢ n
      → Keeps (Issues (Spares n) s) (add_vlan_interface k br v)
  unfolding set_port
  add_vlan_interface-Issues indexed v other =
      Keeps-add_vlan_interface k named indexed br (generate_egress_vlan_interface_name v)
        (λ link. netlink-Issues s k (link_add link) tt)
        (λ link. netlink-Issues s k (link_set_up link) tt)
        (λ link same.
          netlink-Issues s k (link_set_master link br) (λ is_n. other (sym same ∙ is_n)))
        (λ port managed. modify_ports-Issues s _) v refl

  pub vlan_removals-Spared :
      (vs : List EgressVlanInterface)
      → Keeps (Spared br.name n s) (for_each vs (remove_vlan_interface k br))
  vlan_removals-Spared vs = Keeps-for_each vs _ remove_vlan_interface-Spared

  pub additions-Issues :
      KeepsNames k
      → (news : List EgressVlanInterface) → OtherVlans n news
      → All (λ v. Keeps (Issues (Spares n) s) (add_vlan_interface k br v)) news
  additions-Issues indexed news away = All-map _ _ news (add_vlan_interface-Issues indexed) away

  -- From a state in which `n` is not managed.
  pub vlan_reconcile-Issues :
      (olds news : List EgressVlanInterface)
      → All (λ v. Keeps (Issues (Spares n) s) (add_vlan_interface k br v)) news
      → (t : State W) → Spared br.name n s t
      → Issues (Spares n) s (final (egress_vlan_interface_reconcile k br olds news t))
  unfolding egress_vlan_interface_reconcile
  vlan_reconcile-Issues olds news additions t h =
      final-bind (Spared br.name n s) (Issues (Spares n) s)
        (for_each (difference olds news) (remove_vlan_interface k br)) _ t (λ u g. g.issues)
        (vlan_removals-Spared (difference olds news))
        (λ _.
          Keeps-bind (for_each (difference news olds) (add_vlan_interface k br)) (λ _. pure none)
            (Keeps-for_each-All (difference news olds) _ (All-difference _ news olds additions))
            (λ _. Keeps-pure none))
        h
