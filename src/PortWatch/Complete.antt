-- ===== src/PortWatch/Complete.antt =====
-- Which ports `bridgePortWatch` (pkg/server/server.go) records.
use text.Mathlib.TextEquality.{eq_iff}
use bridge_operator.Prelude.{
  Bool, Bool-cases, Elem, List, Option, Option-cases, Result, String, [], ap, arith, err, false,
  here, inl, inr, int_eq, nat_eq, none, ok, refl, some, string_eq, sym, there, true, ◌&&◌, ◌==◌,
  ◌∙◌, ◌∷◌, ◌≡◌,
}
use bridge_operator.GoMap.{GoMap, has, keys, lookup}
use bridge_operator.Netlink.{Kernel, Link}
use bridge_operator.PortWatch.{
  attached_to, bridge_port_watch, check_bridge, check_port, check_ports, links_of, note_link,
  note_master, note_port, ports_of,
}
use bridge_operator.Ports.{remove_port, set_port}
use bridge_operator.Ports.Laws.{
  has-set_port_management, port_entry, port_entry-remove_port_management,
  port_entry-set_port_management,
}
use bridge_operator.State.{State, for_each, gets, modify_ports, pure, returned, ◌>>=◌}
use bridge_operator.State.Keeps.{Keeps, Keeps-for_each, keeps_rules}
use bridge_operator.State.Yields.{Keeps-Yields, Yields, Yields-bind, Yields-elim, Yields-mono}
use bridge_operator.Types.{interface_eq, vlan_interface_eq}

abbrev pub has_value : Option Bool → Bool
has_value none = false
has_value (some v) = true

ok_same : {A : Type 0} {a b : A} → ok a ≡ ok b → a ≡ b
ok_same e = cc

-- The link `link` is a port of the link `master_link`, in a kernel whose lookups agree.
pub record IsPort {W : Type 0} (k : Kernel W) (w : W) (link master_link : Link) : Type 0 where
  pub not_zero : (link.master_index == 0) ≡ false
  pub index : master_link.index ≡ link.master_index
  pub by_index : k.link_by_index link.master_index w ≡ ok master_link
  pub master_by_name : k.link_by_name master_link.name w ≡ ok master_link
  pub by_name : k.link_by_name link.name w ≡ ok link

module _ {W : Type 0} (k : Kernel W) (w : W) (link master_link : Link)
    (port : IsPort k w link master_link) where
  record Known (t : State W) : Type 0 where
    world_is : t.world ≡ w
    known : has master_link.name t.managed_bridge_ports ≡ true

  record Recorded (t : State W) : Type 0 where
    at_world : t.world ≡ w
    entry : has_value (port_entry master_link.name link.name t.managed_bridge_ports) ≡ true

  set_port-Known : (b p : String) (v : Bool) → Keeps Known (set_port b p v)
  unfolding set_port modify_ports
  set_port-Known b p v = record {
    at = λ t h. record {
      world_is = h.world_is;
      known = has-set_port_management b p master_link.name v t.managed_bridge_ports ∙ h.known;
    };
  }

  set_port-Recorded : (b p : String) (v : Bool) → Keeps Recorded (set_port b p v)
  unfolding set_port modify_ports
  set_port-Recorded b p v = record {
    at = λ t h. record {
      at_world = h.at_world;
      entry = ground (
        arith,
        h.entry,
        port_entry-set_port_management b p master_link.name link.name t.managed_bridge_ports v,
      );
    };
  }

  module _ {P : State W → Type 0}
      (sets : (b p : String) (v : Bool) → Keeps P (set_port b p v)) where
    note_any_port : (b p : String) (o : Option (GoMap String Bool)) → Keeps P (note_port b p o)
    unfolding note_port
    note_any_port b p none = search keeps_rules
    note_any_port b p (some ports) = search (keeps_rules, sets)

    note_any_master : (p : String) (r : Result Link) → Keeps P (note_master p r)
    unfolding note_master
    note_any_master p (err e) = search keeps_rules
    note_any_master p (ok l) = search (keeps_rules, note_any_port)

    note_any_link : (l : Link) → Keeps P (note_link k l)
    unfolding note_link
    note_any_link l = search (keeps_rules, note_any_master)

  note_port-Recorded :
      (t : State W)
      → Known t
      → Yields
          (λ _ u. Recorded u)
          (note_port master_link.name link.name (lookup master_link.name t.managed_bridge_ports) t)
  unfolding note_port set_port modify_ports pure has port_entry
  note_port-Recorded t h = elim (Option-cases (lookup master_link.name t.managed_bridge_ports)) [
    | inl e ↦ absurd (ground (arith, h.known, e))
    | inr (ports, e) ↦ elim (Bool-cases (has link.name ports)) [
      | inl old ↦ rw (e, old) (record { at_world = h.world_is; entry = ground (arith, e, old) })
      | inr new ↦
          rw (e, new)
            (record {
              at_world = h.world_is;
              entry = ground (
                arith,
                h.known,
                eq_iff master_link.name master_link.name,
                eq_iff link.name link.name,
                port_entry-set_port_management master_link.name link.name master_link.name link.name
                    t.managed_bridge_ports false,
              );
            })
    ]
  ]

  note_link-Recorded : (t : State W) → Known t → Yields (λ _ u. Recorded u) (note_link k link t)
  unfolding note_link note_master gets ◌>>=◌
  note_link-Recorded t h =
      rw (port.not_zero, ap (λ x. k.link_by_index link.master_index x) h.world_is ∙ port.by_index)
        (note_port-Recorded t h)

  remove_other :
      (b q : String)
      → (b == master_link.name && q == link.name) ≡ false
      → Keeps Recorded (remove_port b q)
  unfolding remove_port modify_ports
  remove_other b q other = record {
    at = λ t h. record {
      at_world = h.at_world;
      entry = ground (
        arith,
        h.entry,
        other,
        port_entry-remove_port_management b q master_link.name link.name t.managed_bridge_ports,
      );
    };
  }

  is_attached :
      (b q : String) (br : Link) (v : W)
      → k.link_by_name b w ≡ ok br
      → v ≡ w
      → (b == master_link.name && q == link.name) ≡ true
      → attached_to br.index (k.link_by_name q v) ≡ true
  is_attached b q br v found at_w same =
      let same_b : b ≡ master_link.name = ground (arith, same, eq_iff b master_link.name) in
      let same_q : q ≡ link.name = ground (arith, same, eq_iff q link.name) in
      let same_br : br ≡ master_link =
        ok_same (sym found ∙ ap (λ n. k.link_by_name n w) same_b ∙ port.master_by_name) in
      let found_q : k.link_by_name q v ≡ ok link =
        ap (λ n. k.link_by_name n v) same_q
        ∙ ap (λ x. k.link_by_name link.name x) at_w
        ∙ port.by_name in
      ap (λ r. attached_to br.index r) found_q
      ∙ ground (arith, ap (λ l. l.index) same_br, port.index)

  check_port-Recorded :
      (b q : String) (br : Link)
      → k.link_by_name b w ≡ ok br
      → Keeps Recorded (check_port k b br.index q)
  unfolding check_port gets pure ◌>>=◌
  check_port-Recorded b q br found = record {
    at = λ t h. elim (Bool-cases (attached_to br.index (k.link_by_name q t.world))) [
      | inl attached ↦ rw attached h
      | inr left ↦ rw left ((remove_other b q (not_this t h left)).at t h)
    ];
  }
    where
      not_this :
          (t : State W)
          → Recorded t
          → attached_to br.index (k.link_by_name q t.world) ≡ false
          → (b == master_link.name && q == link.name) ≡ false
      not_this t h left = elim (Bool-cases (b == master_link.name && q == link.name)) [
        | inl same ↦ same ∙ sym (is_attached b q br t.world found h.at_world same) ∙ left
        | inr other ↦ other
      ]

  check_ports-Recorded :
      (b : String) (r : Result Link) (names : List String)
      → k.link_by_name b w ≡ r
      → Keeps Recorded (check_ports k b r names)
  unfolding check_ports
  check_ports-Recorded b (err e) names found = search keeps_rules
  check_ports-Recorded b (ok br) names found =
      Keeps-for_each names (check_port k b br.index) (λ q. check_port-Recorded b q br found)

  check_bridge-Recorded : (b : String) → Keeps Recorded (check_bridge k b)
  unfolding check_bridge gets ◌>>=◌
  check_bridge-Recorded b = record {
    at = λ t h.
        (check_ports-Recorded b (k.link_by_name b t.world)
            (ports_of (lookup b t.managed_bridge_ports))
            (ap (λ x. k.link_by_name b x) (sym h.at_world))).at
          t h;
  }

  note_all-Recorded :
      (links : List Link) (t : State W)
      → Known t
      → Elem link links
      → Yields (λ _ u. Recorded u) (for_each links (note_link k) t)
  unfolding for_each
  note_all-Recorded [] t h m = elim m [ ]
  note_all-Recorded (l ∷ links) t h here = Yields-bind _ (note_link k l) _ t (
      Yields-mono _ _ (note_link k l t)
        (λ _ u g.
          Keeps-Yields Recorded (for_each links (note_link k))
            (Keeps-for_each links (note_link k) (note_any_link set_port-Recorded)) u g)
        (note_link-Recorded t h))
  note_all-Recorded (l ∷ links) t h (there m) = Yields-bind _ (note_link k l) _ t (
      Yields-mono _ _ (note_link k l t) (λ _ u g. note_all-Recorded links u g m)
        (Keeps-Yields Known (note_link k l) (note_any_link set_port-Known l) t h))

-- If the kernel lists a port of a bridge that is in the table, and its lookups agree on the two,
-- then after `bridgePortWatch` returns the port has an entry under the bridge.
pub bridge_port_watch-Recorded :
    {W : Type 0} (k : Kernel W) (s t : State W) (links : List Link) (link master_link : Link)
    → k.link_list s.world ≡ ok links
    → Elem link links
    → IsPort k s.world link master_link
    → has master_link.name s.managed_bridge_ports ≡ true
    → bridge_port_watch k s ≡ returned tt t
    → has_value (port_entry master_link.name link.name t.managed_bridge_ports) ≡ true
unfolding bridge_port_watch gets ◌>>=◌
bridge_port_watch-Recorded k s t links link master_link listed m port known e =
    let noted : Yields (λ _ u. Recorded k s.world link master_link port u)
        (for_each (links_of (k.link_list s.world)) (note_link k) s) =
      rw listed (
        note_all-Recorded k s.world link master_link port links s
          (record { world_is = refl; known = known }) m) in
    let watched : Yields (λ _ u. Recorded k s.world link master_link port u)
        (bridge_port_watch k s) =
      Yields-bind _ (for_each (links_of (k.link_list s.world)) (note_link k)) _ s (
        Yields-mono _ _ (for_each (links_of (k.link_list s.world)) (note_link k) s)
          (λ _ u g.
            Keeps-Yields (Recorded k s.world link master_link port) _
              (Keeps-for_each (keys u.managed_bridge_ports) (check_bridge k)
                (check_bridge-Recorded k s.world link master_link port))
              u g)
          noted) in
    (Yields-elim _ (bridge_port_watch k s) tt t watched e).entry
