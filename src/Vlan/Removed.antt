-- ===== src/Vlan/Removed.antt =====
-- The loop of `egressVlanInterfaceReconcile` (pkg/server/bridgeconfig.go) over the VLAN interfaces
-- that are to be removed.
pub mod Loop
use mathlib.Core.Path.{subst}
use text.Mathlib.TextEquality.{eq_iff}
use bridge_operator.Prelude.{
  Bool, Bool-cases, Result, Result-cases, String, [], ap, arith, err, false, inl, inr, int_eq,
  nat_eq, none, not_found, ok, refl, some, string_eq, sym, true, ℕ, ◌++◌, ◌==◌, ◌∙◌, ◌∷◌, ◌≡◌, ◌≢◌,
  ◌⊎◌,
}
use bridge_operator.Egress.{is_nil}
use bridge_operator.Egress.Masters.{GrantsMasters, master, master_of}
use bridge_operator.Netlink.{Kernel, Link, NetCall, link_del, link_set_master, link_set_no_master}
use bridge_operator.Ports.{is_port_managed}
use bridge_operator.State.{M, State, gets, net, netlink, pure, returned, ◌>>=◌}
use bridge_operator.Types.{EgressVlanInterface, interface_eq, vlan_interface_eq}
use bridge_operator.Vlan.{delete_vlan, release_vlan}
use bridge_operator.VlanName.{generate_egress_vlan_interface_name}

-- The call makes no link.
abbrev pub makes_none : NetCall → Bool
makes_none (link_set_master link br) = true
makes_none (link_set_no_master link) = true
makes_none (link_del link) = true
makes_none _ = false

module _ {W : Type 0} (k : Kernel W) where
  -- A deleted link is gone. A deletion may take other links away, such as those on top of the link,
  -- but makes none, and moves none that is not in the link. No link changes its index.
  pub record GrantsRemovals : Type 0 where
    pub gone :
        (link : Link) (w : W)
        → k.link_by_name link.name (k.perform (link_del link) w).1 ≡ err not_found
    pub makes_no_link :
        (link : Link) (w : W) (p : String)
        → master k p w ≡ none
        → master k p (k.perform (link_del link) w).1 ≡ none
    pub moves_no_other :
        (link : Link) (w : W) (p : String) (m : ℕ)
        → master k p w ≡ some m
        → m ≢ link.index
        → (master k p (k.perform (link_del link) w).1 ≡ none)
          ⊎ (master k p (k.perform (link_del link) w).1 ≡ some m)
    pub same_index :
        (c : NetCall) (w : W) (p : String) (link : Link)
        → makes_none c ≡ true
        → k.link_by_name p (k.perform c w).1 ≡ ok link
        → (was : Link) × (k.link_by_name p w ≡ ok was) × (was.index ≡ link.index)

module _ {W : Type 0} (k : Kernel W) (grants : GrantsMasters k) (removals : GrantsRemovals k)
    (br : Link) (n : String) where
  open removals use {gone, makes_no_link, moves_no_other, same_index}

  -- The link `n` is in the bridge, or gone.
  abbrev pub Present : W → Type 0
  Present w = master k n w ≡ some br.index

  abbrev pub Absent : W → Type 0
  Absent w = master k n w ≡ none

  -- No name of a VLAN interface is that of the bridge.
  abbrev pub Distinct : W → Type 0
  Distinct w =
      (v : EgressVlanInterface) (link : Link)
      → k.link_by_name (generate_egress_vlan_interface_name v) w ≡ ok link
      → link.index ≢ br.index

  pub call-Distinct :
      (c : NetCall) (w : W) → makes_none c ≡ true → Distinct w → Distinct (k.perform c w).1
  call-Distinct c w makes d v link found same =
      let (was, was_there, index) =
        same_index c w (generate_egress_vlan_interface_name v) link makes found in
      d v was was_there (index ∙ same)

  -- From `w` to `u` the link `n` stays in the bridge or goes, and does not come back.
  pub record Frees (w u : W) : Type 0 where
    pub present : Present w → Present u ⊎ Absent u
    pub absent : Absent w → Absent u
    pub distinct : Distinct w → Distinct u

  Frees-refl : (w : W) → Frees w w
  Frees-refl w = record { present = λ h. inl h; absent = λ h. h; distinct = λ h. h }

  -- `q` is released: if it is `n`, then `n` is gone.
  pub record FreesName (q : String) (m : M W Bool) (s : State W) : Type 0 where
    pub left : State W
    pub answer : Bool
    pub returns : m s ≡ returned answer left
    pub same_table : left.managed_bridge_ports ≡ s.managed_bridge_ports
    pub frees : Frees s.world left.world
    pub frees_self :
        is_port_managed br.name q s.managed_bridge_ports ≡ true
        → q ≡ n
        → Present s.world ⊎ Absent s.world
        → Absent left.world

  -- The world once a link was detached and deleted.
  abbrev deleted_world : Link → W → W
  deleted_world link w = (k.perform (link_del link) (k.perform (link_set_no_master link) w).1).1

  deleted-Absent : (link : Link) (w : W) → link.name ≡ n → Absent (deleted_world link w)
  unfolding master
  deleted-Absent link w named =
      let w2 = deleted_world link w in
      subst (λ x. master_of (k.link_by_name x w2) ≡ none) named
        (ap master_of (gone link (k.perform (link_set_no_master link) w).1))

  deleted_other-Frees :
      (link : Link) (w : W) → link.name ≢ n → link.index ≢ br.index → Frees w (deleted_world link w)
  deleted_other-Frees link w other distinct_index =
      let w1 = (k.perform (link_set_no_master link) w).1 in
      let same : master k n w1 ≡ master k n w =
        ground (arith, grants.master-set_no_master link w n, other, eq_iff link.name n) in
      record {
        present = λ h.
            elim (moves_no_other link w1 n br.index (same ∙ h) (λ e. distinct_index (sym e))) [
              | inl away ↦ inr away
              | inr still ↦ inl still
            ];
        absent = λ h. makes_no_link link w1 n (same ∙ h);
        distinct = λ d.
            call-Distinct (link_del link) w1 refl
              (call-Distinct (link_set_no_master link) w refl d);
      }

  deleted-Frees : (link : Link) (w : W) → link.index ≢ br.index → Frees w (deleted_world link w)
  deleted-Frees link w distinct_index = elim (Bool-cases (link.name == n)) [
    | inl same ↦
        let away = deleted-Absent link w ((eq_iff link.name n).0 same) in
        record {
          present = λ h. inr away;
          absent = λ h. away;
          distinct = λ d.
              call-Distinct (link_del link) (k.perform (link_set_no_master link) w).1 refl
                (call-Distinct (link_set_no_master link) w refl d);
        }
    | inr other ↦
        deleted_other-Frees link w (λ e. absurd (ground (arith, other, e, eq_iff link.name n)))
          distinct_index
  ]

  master_of_name :
      (q : String) (w : W) (r : Result Link)
      → k.link_by_name q w ≡ r
      → q ≡ n
      → master k n w ≡ master_of r
  unfolding master
  master_of_name q w r found same =
      subst (λ x. master_of (k.link_by_name x w) ≡ master_of r) same (ap master_of found)

  module _ (has_index : (br.index == 0) ≡ false) where
    pub release_vlan-FreesName :
        (v : EgressVlanInterface) (s : State W)
        → Distinct s.world
        → FreesName
            (generate_egress_vlan_interface_name v)
            (release_vlan k br (generate_egress_vlan_interface_name v))
            s
    unfolding release_vlan delete_vlan netlink gets pure ◌>>=◌ is_nil
    release_vlan-FreesName v s distinct =
        let q = generate_egress_vlan_interface_name v in
        elim (Bool-cases (is_port_managed br.name q s.managed_bridge_ports)) [
          | inr unmanaged ↦ record {
            left = s;
            answer = true;
            returns = rw unmanaged refl;
            same_table = refl;
            frees = Frees-refl s.world;
            frees_self = λ m _ _. absurd (ground (arith, m, unmanaged));
          }
          | inl managed ↦ elim (Result-cases (k.link_by_name q s.world)) [
            | inl (e, missing) ↦ record {
              left = s;
              answer = false;
              returns = rw (managed, missing) refl;
              same_table = refl;
              frees = Frees-refl s.world;
              frees_self = λ _ same _. master_of_name q s.world (err e) missing same;
            }
            | inr (link, found) ↦ elim (Bool-cases (link.master_index == 0)) [
              | inl free ↦ record {
                left = s;
                answer = false;
                returns = rw (managed, found, free) refl;
                same_table = refl;
                frees = Frees-refl s.world;
                frees_self = λ _ same o.
                    let m = master_of_name q s.world (ok link) found same in
                    elim o [
                      | inl present ↦ absurd (ground (arith, m, present, free, has_index))
                      | inr away ↦ away
                    ];
              }
              | inr taken ↦
                  let w1 = (k.perform (link_set_no_master link) s.world).1 in
                  record {
                    left = record s {
                      calls =
                          (s.calls ++ net (link_set_no_master link) ∷ [])
                          ++ net (link_del link) ∷ [];
                      world = deleted_world link s.world;
                    };
                    answer = is_nil (k.perform (link_del link) w1).0;
                    returns = rw (managed, found, taken, grants.set_no_master link s.world) refl;
                    same_table = refl;
                    frees = deleted-Frees link s.world (distinct v link found);
                    frees_self = λ _ same _.
                        deleted-Absent link s.world (grants.named q s.world link found ∙ same);
                  }
            ]
          ]
        ]
