-- ===== src/PortWatch/Sound.antt =====
-- What `bridgePortWatch` leaves in the table of ports.
use mathlib.Core.Path.{subst}
use text.Mathlib.TextEquality.{eq_iff}
use bridge_operator.Prelude.{
  All-Elem, Bool, Bool-cases, Elem, Option, Option-cases, Result, String, ap, arith, err,
  if◌then◌else◌, inl, inr, int_eq, nat_eq, none, ok, refl, some, string_eq, sym, ◌==◌, ◌≡◌,
}
use bridge_operator.GoMap.{GoMap, has, keys, lookup}
use bridge_operator.GoMap.Laws.{Elem-keys}
use bridge_operator.Netlink.{Kernel, Link}
use bridge_operator.PortWatch.{
  attached_to, bridge_port_watch, check_bridge, check_port, check_ports, links_of, note_link,
  note_master, note_port, ports_of,
}
use bridge_operator.Ports.{remove_port, set_port}
use bridge_operator.Ports.Laws.{port_entry, port_entry-remove_port_management}
use bridge_operator.State.{Ports, State, for_each, gets, modify_ports, panic, pure, returned, ◌>>=◌}
use bridge_operator.State.Keeps.{Keeps, Keeps-for_each, Keeps-if, Keeps-pure, keeps_rules}
use bridge_operator.State.Yields.{
  Keeps-Yields, Went, Yields, Yields-bind, Yields-elim, Yields-for_each, Yields-mono,
}
use bridge_operator.Types.{interface_eq, vlan_interface_eq}

module _ {W : Type 0} (k : Kernel W) (w : W) where
  -- The kernel `w` knows both links, and the bridge is the master of the port.
  pub record IsAttached (b p : String) : Type 0 where
    pub bridge_link : Link
    pub port_link : Link
    pub bridge_found : k.link_by_name b w ≡ ok bridge_link
    pub port_found : k.link_by_name p w ≡ ok port_link
    pub master : port_link.master_index ≡ bridge_link.index

  -- The kernel is `w`, and the entries are among those of `s`.
  record Shrinks (s t : State W) : Type 0 where
    world_is : t.world ≡ w
    among :
        (b p : String) (v : Bool)
        → port_entry b p t.managed_bridge_ports ≡ some v
        → port_entry b p s.managed_bridge_ports ≡ some v

  -- Every port that is recorded for the bridge is attached to it.
  abbrev AllAttached : String → State W → Type 0
  AllAttached b t =
      (p : String) (v : Bool) → port_entry b p t.managed_bridge_ports ≡ some v → IsAttached b p

  abbrev PortAttached : String → String → State W → Type 0
  PortAttached b p t = (v : Bool) → port_entry b p t.managed_bridge_ports ≡ some v → IsAttached b p

  remove_port-Shrinks :
      (b p : String) (s t : State W)
      → Shrinks s t
      → Yields
          (λ _ u. Shrinks s u × Shrinks t u × (port_entry b p u.managed_bridge_ports ≡ none))
          (remove_port b p t)
  unfolding remove_port modify_ports
  remove_port-Shrinks b p s t h = (
    record {
      world_is = h.world_is;
      among = λ c q v e.
          h.among c q v
            (ground (arith, e, port_entry-remove_port_management b p c q t.managed_bridge_ports));
    },
    record {
      world_is = h.world_is;
      among = λ c q v e.
          ground (arith, e, port_entry-remove_port_management b p c q t.managed_bridge_ports);
    },
    ground (
      arith,
      eq_iff b b,
      eq_iff p p,
      port_entry-remove_port_management b p b p t.managed_bridge_ports,
    ),
  )

  Shrinks-refl : (s : State W) → s.world ≡ w → Shrinks s s
  Shrinks-refl s e = record { world_is = e; among = λ b p v h. h }

  -- What is checked of a port stays so while entries only go.
  went :
      (b : String) {s t u : State W}
      → Shrinks s u
      → Shrinks t u
      → Went (Shrinks s) (PortAttached b) t u
  went b hs ht = record { inv = hs; stays = λ q d v e. d v (ht.among b q v e) }

  module _ (b : String) (br : Link) (s : State W) (found : k.link_by_name b w ≡ ok br) where
    drop_port :
        (p : String) (t : State W)
        → Shrinks s t
        → Yields
            (λ _ u. Went (Shrinks s) (PortAttached b) t u × PortAttached b p u)
            (remove_port b p t)
    drop_port p t h =
        Yields-mono _ _ (remove_port b p t) (λ _ u g. (went b g.0 g.1, λ v e. absurd (cc (g.2, e))))
          (remove_port-Shrinks b p s t h)

    keep_or_drop :
        (p : String) (r : Result Link) (t : State W)
        → k.link_by_name p w ≡ r
        → Shrinks s t
        → Yields
            (λ _ u. Went (Shrinks s) (PortAttached b) t u × PortAttached b p u)
            ((if attached_to br.index r then pure tt else remove_port b p) t)
    unfolding pure
    keep_or_drop p (err e) t at_p h = drop_port p t h
    keep_or_drop p (ok link) t at_p h = elim (Bool-cases (link.master_index == br.index)) [
      | inl same ↦ rw same (
        went b h (Shrinks-refl t h.world_is),
        λ v e. record {
          bridge_link = br;
          port_link = link;
          bridge_found = found;
          port_found = at_p;
          master = ground (arith, same);
        },
      )
      | inr other ↦ rw other (drop_port p t h)
    ]

    check_port-Went :
        (p : String) (t : State W)
        → Shrinks s t
        → Yields
            (λ _ u. Went (Shrinks s) (PortAttached b) t u × PortAttached b p u)
            (check_port k b br.index p t)
    unfolding check_port gets ◌>>=◌
    check_port-Went p t h =
        keep_or_drop p (k.link_by_name p t.world) t (ap (k.link_by_name p) (sym h.world_is)) h

  entry-keys :
      (b p : String) (v : Bool) (m : Ports)
      → port_entry b p m ≡ some v
      → Elem p (ports_of (lookup b m))
  unfolding port_entry
  entry-keys b p v m e = elim (Option-cases (lookup b m)) [
    | inl none_there ↦ absurd (ground (arith, none_there, e))
    | inr (ports, there_is) ↦ rw there_is (Elem-keys p v ports (ground (arith, e, there_is)))
  ]

  check_ports-AllAttached :
      (b : String) (r : Result Link) (s : State W)
      → k.link_by_name b w ≡ r
      → s.world ≡ w
      → Yields
          (λ _ u. Shrinks s u × AllAttached b u)
          (check_ports k b r (ports_of (lookup b s.managed_bridge_ports)) s)
  unfolding check_ports panic
  check_ports-AllAttached b (err e) s found at_w = tt
  check_ports-AllAttached b (ok br) s found at_w =
      let names = ports_of (lookup b s.managed_bridge_ports) in
      Yields-mono _ _ (for_each names (check_port k b br.index) s)
        (λ _ u g. (
          g.0.inv,
          λ p v e.
              All-Elem (λ q. PortAttached b q u) names g.1
                (entry-keys b p v s.managed_bridge_ports (g.0.inv.among b p v e)) v e,
        ))
        (Yields-for_each (Shrinks s) (PortAttached b) (check_port k b br.index)
          (check_port-Went b br s found) names s (Shrinks-refl s at_w))

  Shrinks-trans : {s t u : State W} → Shrinks s t → Shrinks t u → Shrinks s u
  Shrinks-trans h g = record {
    world_is = g.world_is;
    among = λ b p v e. h.among b p v (g.among b p v e);
  }

  check_bridge-AllAttached :
      (s : State W) (b : String) (t : State W)
      → Shrinks s t
      → Yields (λ _ u. Went (Shrinks s) AllAttached t u × AllAttached b u) (check_bridge k b t)
  unfolding check_bridge gets ◌>>=◌
  check_bridge-AllAttached s b t h =
      Yields-mono _ _ (check_ports k b (k.link_by_name b t.world) _ t)
        (λ _ u g. (
          record { inv = Shrinks-trans h g.0; stays = λ c d p v e. d p v (g.0.among c p v e) },
          g.1,
        ))
        (check_ports-AllAttached b (k.link_by_name b t.world) t
          (ap (k.link_by_name b) (sym h.world_is)) h.world_is)

  entry-bridge : (b p : String) (v : Bool) (m : Ports) → port_entry b p m ≡ some v → Elem b (keys m)
  unfolding port_entry
  entry-bridge b p v m e = elim (Option-cases (lookup b m)) [
    | inl none_there ↦ absurd (ground (arith, none_there, e))
    | inr (ports, there_is) ↦ Elem-keys b ports m there_is
  ]

  check_all :
      (s : State W)
      → s.world ≡ w
      → Yields
          (λ _ u. (u.world ≡ w) × ((b : String) → AllAttached b u))
          (for_each (keys s.managed_bridge_ports) (check_bridge k) s)
  check_all s at_w =
      let names = keys s.managed_bridge_ports in
      Yields-mono _ _ (for_each names (check_bridge k) s)
        (λ _ u g. (
          g.0.inv.world_is,
          λ b p v e.
              All-Elem (λ c. AllAttached c u) names g.1
                (entry-bridge b p v s.managed_bridge_ports (g.0.inv.among b p v e)) p v e,
        ))
        (Yields-for_each (Shrinks s) AllAttached (check_bridge k) (check_bridge-AllAttached s) names
          s (Shrinks-refl s at_w))

  abbrev AtWorld : State W → Type 0
  AtWorld t = t.world ≡ w

  note_port-AtWorld :
      (b p : String) (o : Option (GoMap String Bool)) → Keeps AtWorld (note_port b p o)
  unfolding note_port set_port modify_ports
  note_port-AtWorld b p none = search keeps_rules
  note_port-AtWorld b p (some ports) =
      Keeps-if (has p ports) _ _ (Keeps-pure tt) (record { at = λ t h. h })

  note_master-AtWorld : (p : String) (r : Result Link) → Keeps AtWorld (note_master p r)
  unfolding note_master
  note_master-AtWorld p (err e) = search keeps_rules
  note_master-AtWorld p (ok link) = search (keeps_rules, note_port-AtWorld)

  note_link-AtWorld : (link : Link) → Keeps AtWorld (note_link k link)
  unfolding note_link
  note_link-AtWorld link = search (keeps_rules, note_master-AtWorld)

-- After `bridgePortWatch` returns, every port in the table, of whichever bridge, is a link whose
-- master is that bridge, in the kernel as it is then.
pub bridge_port_watch-IsAttached :
    {W : Type 0} (k : Kernel W) (s t : State W)
    → bridge_port_watch k s ≡ returned tt t
    → (b p : String) (v : Bool) → port_entry b p t.managed_bridge_ports ≡ some v
    → IsAttached k t.world b p
unfolding bridge_port_watch gets ◌>>=◌
bridge_port_watch-IsAttached k s t e b p v h =
    let links = links_of (k.link_list s.world) in
    let watched : Yields (λ _ u. (u.world ≡ s.world) × ((c : String) → AllAttached k s.world c u))
        (bridge_port_watch k s) =
      Yields-bind _ (for_each links (note_link k)) _ s (
        Yields-mono _ _ (for_each links (note_link k) s) (λ _ u at_w. check_all k s.world u at_w)
          (Keeps-Yields (AtWorld k s.world) _
            (Keeps-for_each links (note_link k) (note_link-AtWorld k s.world)) s refl)) in
    let done = Yields-elim _ (bridge_port_watch k s) tt t watched e in
    subst (λ x. IsAttached k x b p) (sym done.0) (done.1 b p v h)
