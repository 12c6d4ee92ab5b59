-- ===== src/Bridge/Configured.antt =====
-- What `bridgeConfigured` (pkg/server/bridgeconfig.go) does for a bridge that is not there yet.
use text.Mathlib.TextEquality.{eq_iff}
use bridge_operator.Prelude.{
  Bool, List, Option, Option-cases, Result-cases, String, [], ap, arith, contains, err, inl, inr,
  int_eq, nat_eq, none, not_found, ok, refl, some, string_eq, true, ℕ, ◌++◌, ◌∙◌, ◌∷◌, ◌≡◌,
}
use bridge_operator.Bridge.{bridge_configured, bridge_update, new_bridge, update_found}
use bridge_operator.Egress.{is_nil}
use bridge_operator.Egress.Masters.{master, master_of}
use bridge_operator.Egress.Masters.Reconcile.{
  egress_interface_reconcile-wanted_master, of_name, wanted_master,
}
use bridge_operator.Filtering.{bridge_vlan_filtering_reconcile}
use bridge_operator.Filtering.Plan.{missing}
use bridge_operator.Filtering.Untouched.{bridge_vlan_filtering_reconcile-Safe}
use bridge_operator.Netlink.{
  Kernel, Link, bridge_device, bridge_set_vlan_filtering, bridge_vlan_add, bridge_vlan_del,
  link_add, link_set_up,
}
use bridge_operator.State.{M, State, gets, net, netlink, pure, returned, ◌>>=◌}
use bridge_operator.State.Safe.{Safe}
use bridge_operator.Types.{
  BridgeConfiguration, EgressInterface, EgressVlanInterface, interface_eq, vlan_interface_eq,
}
use bridge_operator.Vlan.Joined.{GrantsVlans, is_there}
use bridge_operator.Vlan.Joined.Loop.{
  egress_vlan_interface_reconcile-Grows, egress_vlan_interface_reconcile-joined,
}
use bridge_operator.VlanName.{generate_egress_vlan_interface_name}

module _ {W : Type 0} (k : Kernel W) where
  -- The link that the daemon asks for, and the world once it is made and set up.
  abbrev pub made_world : Link → W → W
  made_world new w =
      let w1 = (k.perform (link_add new) w).1 in
      (k.perform (link_set_up (k.ensure_index new w1)) w1).1

  -- `m` returns `a`, and then the link `q` is in the bridge that was made for the configuration.
  abbrev pub PutsIn : {A : Type 0} → M W A → A → BridgeConfiguration → String → State W → Type 0
  PutsIn m a config q s =
      (br : Link) × (t : State W) × (k.link_by_name config.metadata.name
          (made_world (new_bridge config.metadata.name) s.world)
        ≡ ok br)
      × (m s ≡ returned a t)
      × (master k q t.world ≡ some br.index)

  -- The kernel refuses no call to make a bridge or a VLAN interface or to change a master; a link
  -- that was made and set up is found as the device that was asked for; VLAN ids and the filtering
  -- of a bridge change no master.
  pub record GrantsBridge : Type 0 where
    pub grants_vlans : GrantsVlans k
    pub device_made :
        (new : Link) (w : W) (l : Link)
        → k.link_by_name new.name w ≡ err not_found
        → k.link_by_name new.name (made_world new w) ≡ ok l
        → l.device ≡ new.device
    pub master-filtering :
        (br : Link) (on : Bool) (w : W) (p : String)
        → master k p (k.perform (bridge_set_vlan_filtering br on) w).1 ≡ master k p w
    pub master-vlan_add :
        (l : Link) (vid : ℕ) (a b c d : Bool) (w : W) (p : String)
        → master k p (k.perform (bridge_vlan_add l vid a b c d) w).1 ≡ master k p w
    pub master-vlan_del :
        (l : Link) (vid : ℕ) (a b c d : Bool) (w : W) (p : String)
        → master k p (k.perform (bridge_vlan_del l vid a b c d) w).1 ≡ master k p w

module _ {W : Type 0} (k : Kernel W) (kernel : GrantsBridge k) where
  open kernel use {grants_vlans, device_made, master-filtering, master-vlan_add, master-vlan_del}
  open grants_vlans use {grants, adds, master-add, sets_up, master-set_up}

  -- The master of one port.
  abbrev pub HasMaster : String → Option ℕ → State W → Type 0
  HasMaster p i s = master k p s.world ≡ i

  pub filtering-Safe :
      (p : String) (i : Option ℕ) (config : BridgeConfiguration) (br : Link) (filtering : Bool)
      → br.device ≡ bridge_device (some filtering)
      → Safe (HasMaster p i) (bridge_vlan_filtering_reconcile k config (some br))
  unfolding netlink
  filtering-Safe p i config br filtering e =
      bridge_vlan_filtering_reconcile-Safe k
        (λ l on. record { at = λ s h. (_, _, refl, master-filtering l on s.world p ∙ h) })
        (λ l vid a b c d. record {
          at = λ s h. (_, _, refl, master-vlan_add l vid a b c d s.world p ∙ h);
        })
        (λ l vid a b c d. record {
          at = λ s h. (_, _, refl, master-vlan_del l vid a b c d s.world p ∙ h);
        })
        config br filtering e

  update_found-attaches :
      (config : BridgeConfiguration) (br : Link) (p : String) (s : State W)
      → br.device ≡ bridge_device (some true)
      → contains (of_name p) config.spec.egress_interfaces ≡ true
      → master k p s.world ≡ some 0
      → (t : State W) × (update_found k none config (ok br) s ≡ returned none t)
        × (master k p t.world ≡ some br.index)
  unfolding update_found pure ◌>>=◌ contains
  update_found-attaches config br p s device wanted free =
      let (t1, e1, m1) =
        egress_interface_reconcile-wanted_master k grants br [] config.spec.egress_interfaces p s in
      let (t2, e2, grown) =
        egress_vlan_interface_reconcile-Grows k grants_vlans br config.spec.egress_vlan_interfaces
          t1 in
      let inside = grown.inside p (m1 ∙ rw (wanted, free) refl) in
      let (a, t3, e3, m3) = (filtering-Safe p (some br.index) config br true device).at t2 inside in
      (t3, rw (e1, e2, e3) refl, m3)

  -- Reconciling the physical interfaces takes no link away.
  pub is_there-wanted_master :
      (olds news : List EgressInterface) (br : Link) (p : String) (s : State W)
      → is_there (master k p s.world) ≡ true
      → is_there (wanted_master k br olds news p s) ≡ true
  is_there-wanted_master olds news br p s h = elim (Option-cases (master k p s.world)) [
    | inl gone ↦ absurd (ground (arith, gone, h))
    | inr (m, e) ↦ rw e (ground (arith, e))
  ]

  update_found-joins :
      (config : BridgeConfiguration) (br : Link) (v : EgressVlanInterface) (s : State W)
      → br.device ≡ bridge_device (some true)
      → contains v config.spec.egress_vlan_interfaces ≡ true
      → is_there (master k v.name s.world) ≡ true
      → (t : State W) × (update_found k none config (ok br) s ≡ returned none t)
        × (master k (generate_egress_vlan_interface_name v) t.world ≡ some br.index)
  unfolding update_found pure ◌>>=◌
  update_found-joins config br v s device wanted parent =
      let news = config.spec.egress_interfaces in
      let (t1, e1, m1) = egress_interface_reconcile-wanted_master k grants br [] news v.name s in
      let (t2, e2, inside) =
        egress_vlan_interface_reconcile-joined k grants_vlans br config.spec.egress_vlan_interfaces
          v t1 wanted (ap is_there m1 ∙ is_there-wanted_master [] news br v.name s parent) in
      let (a, t3, e3, m3) =
        (filtering-Safe (generate_egress_vlan_interface_name v) (some br.index) config br true
            device).at
          t2 inside in
      (t3, rw (e1, e2, e3) refl, m3)

  -- The bridge is found once it was made.
  found_made :
      (new : Link) (w : W)
      → k.link_by_name new.name w ≡ err not_found
      → (br : Link) × (k.link_by_name new.name (made_world k new w) ≡ ok br)
  unfolding master
  found_made new w free = elim (Result-cases (k.link_by_name new.name (made_world k new w))) [
    | inr found ↦ found
    | inl (e, missing) ↦
        let w1 = (k.perform (link_add new) w).1 in
        let there =
          master-set_up (k.ensure_index new w1) w1 new.name ∙ master-add new w new.name free in
        absurd (ground (arith, there, ap master_of missing, eq_iff new.name new.name))
  ]

  -- The state in which `bridgeConfigured` goes on to `bridgeUpdate`.
  abbrev made_state : BridgeConfiguration → State W → State W
  made_state config s =
      let new = new_bridge config.metadata.name in
      let w1 = (k.perform (link_add new) s.world).1 in
      record s {
        calls =
            (s.calls ++ net (link_add new) ∷ []) ++ net (link_set_up (k.ensure_index new w1)) ∷ [];
        world = made_world k new s.world;
      }

  configured_of_update :
      (config : BridgeConfiguration) (q : String) (s : State W)
      → k.link_by_name config.metadata.name s.world ≡ err not_found
      → ((br : Link)
          → br.device ≡ bridge_device (some true)
          → (t : State W) × (update_found k none config (ok br) (made_state config s)
              ≡ returned none t)
            × (master k q t.world ≡ some br.index))
      → PutsIn k (bridge_configured k config) none config q s
  unfolding bridge_configured bridge_update new_bridge netlink gets is_nil ◌>>=◌
  configured_of_update config q s free update =
      let new = new_bridge config.metadata.name in
      let w1 = (k.perform (link_add new) s.world).1 in
      let (br, found) = found_made new s.world free in
      let (t, e, m) = update br (device_made new s.world br free found) in
      (br, t, found, rw (adds new s.world free, sets_up (k.ensure_index new w1) w1, found) e, m)

  -- A physical interface that has no master.
  pub bridge_configured-attaches :
      (config : BridgeConfiguration) (p : String) (s : State W)
      → k.link_by_name config.metadata.name s.world ≡ err not_found
      → contains (of_name p) config.spec.egress_interfaces ≡ true
      → master k p s.world ≡ some 0
      → PutsIn k (bridge_configured k config) none config p s
  unfolding new_bridge
  bridge_configured-attaches config p s free wanted unattached =
      let new = new_bridge config.metadata.name in
      let w1 = (k.perform (link_add new) s.world).1 in
      let still : master k p (made_state config s).world ≡ some 0 =
        master-set_up (k.ensure_index new w1) w1 p
        ∙ master-add new s.world p free
        ∙ ground (arith, unattached) in
      configured_of_update config p s free
        (λ br device. update_found-attaches config br p (made_state config s) device wanted still)

  -- A VLAN interface whose parent is there.
  pub bridge_configured-joins :
      (config : BridgeConfiguration) (v : EgressVlanInterface) (s : State W)
      → k.link_by_name config.metadata.name s.world ≡ err not_found
      → contains v config.spec.egress_vlan_interfaces ≡ true
      → is_there (master k v.name s.world) ≡ true
      → PutsIn k (bridge_configured k config) none config (generate_egress_vlan_interface_name v) s
  unfolding new_bridge
  bridge_configured-joins config v s free wanted parent =
      let new = new_bridge config.metadata.name in
      let w1 = (k.perform (link_add new) s.world).1 in
      let still : is_there (master k v.name (made_state config s).world) ≡ true =
        ap is_there
          (master-set_up (k.ensure_index new w1) w1 v.name ∙ master-add new s.world v.name free)
        ∙ ground (arith, parent) in
      configured_of_update config (generate_egress_vlan_interface_name v) s free
        (λ br device. update_found-joins config br v (made_state config s) device wanted still)
