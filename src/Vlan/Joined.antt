-- ===== src/Vlan/Joined.antt =====
-- What it takes that the VLAN interfaces which `egressVlanInterfaceReconcile` (pkg/server/bridgeconfig.go) is to
-- create get into the bridge.
pub mod Loop
use text.Mathlib.TextEquality.{eq_iff}
use bridge_operator.Prelude.{
  Bool, Bool-cases, Error, Option, String, [], ap, arith, beq_refl, err, false, if◌then◌else◌, inl,
  inr, int_eq, nat_beq_iff, nat_eq, none, not_found, ok, refl, some, string_eq, true, ℕ, ◌++◌, ◌==◌,
  ◌∙◌, ◌∷◌, ◌≡◌, ◌≢◌,
}
use bridge_operator.Egress.{is_nil}
use bridge_operator.Egress.Masters.{GrantsMasters, master}
use bridge_operator.Egress.Masters.Steps.{master-found}
use bridge_operator.Netlink.{Kernel, Link, link_add, link_set_master, link_set_up}
use bridge_operator.Ports.{set_port, set_port_management}
use bridge_operator.State.{
  Outcome, State, deref, gets, modify_ports, net, netlink, pure, returned, ◌>>=◌,
}
use bridge_operator.Types.{interface_eq, vlan_interface_eq}
use bridge_operator.Vlan.{create_vlan, join_bridge}

module _ {W : Type 0} (k : Kernel W) where
  -- A lookup fails only for a link that is not there. The kernel refuses no call for a VLAN
  -- interface whose name is free; a new link has the name and the master that it is made with;
  -- setting a link up changes no master.
  pub record GrantsVlans : Type 0 where
    pub grants : GrantsMasters k
    pub only_missing : (n : String) (w : W) (e : Error) → k.link_by_name n w ≡ err e → e ≡ not_found
    pub adds :
        (new : Link) (w : W)
        → k.link_by_name new.name w ≡ err not_found
        → (k.perform (link_add new) w).0 ≡ none
    pub master-add :
        (new : Link) (w : W) (p : String)
        → k.link_by_name new.name w ≡ err not_found
        → master k p (k.perform (link_add new) w).1
          ≡ (if new.name == p then some new.master_index else master k p w)
    pub ensured :
        (new : Link) (w : W)
        → k.link_by_name new.name w ≡ err not_found
        → ((k.ensure_index new (k.perform (link_add new) w).1).name ≡ new.name)
          × ((k.ensure_index new (k.perform (link_add new) w).1).master_index ≡ new.master_index)
    pub sets_up : (link : Link) (w : W) → (k.perform (link_set_up link) w).0 ≡ none
    pub master-set_up :
        (link : Link) (w : W) (p : String)
        → master k p (k.perform (link_set_up link) w).1 ≡ master k p w

abbrev pub is_there : Option ℕ → Bool
is_there none = false
is_there (some m) = true

module _ {W : Type 0} (k : Kernel W) (grants_vlans : GrantsVlans k) (br : Link) where
  open grants_vlans use {grants, only_missing, adds, master-add, ensured, sets_up, master-set_up}

  -- No link goes, and none that is in the bridge leaves it.
  pub record Grows (w u : W) : Type 0 where
    pub stays : (p : String) → is_there (master k p w) ≡ true → is_there (master k p u) ≡ true
    pub inside : (p : String) → master k p w ≡ some br.index → master k p u ≡ some br.index

  pub Grows-refl : (w : W) → Grows w w
  Grows-refl w = record { stays = λ p h. h; inside = λ p h. h }

  pub Grows-trans : (u v w : W) → Grows u v → Grows v w → Grows u w
  Grows-trans u v w f g = record {
    stays = λ p h. g.stays p (f.stays p h);
    inside = λ p h. g.inside p (f.inside p h);
  }

  set_master-Grows : (link : Link) (w : W) → Grows w (k.perform (link_set_master link br) w).1
  set_master-Grows link w = record {
    stays = λ p h. ground (arith, grants.master-set_master link br w p, h);
    inside = λ p h. ground (arith, grants.master-set_master link br w p, h);
  }

  add-Grows :
      (new : Link) (w : W)
      → k.link_by_name new.name w ≡ err not_found
      → Grows w (k.perform (link_add new) w).1
  add-Grows new w free = record {
    stays = λ p h. ground (arith, master-add new w p free, h);
    inside = λ p h. elim (Bool-cases (new.name == p)) [
      | inl same ↦
          let gone = master-found k grants br p new.name w (err not_found) free same in
          absurd (ground (arith, gone, h))
      | inr other ↦ master-add new w p free ∙ rw other h
    ];
  }

  set_up-Grows : (link : Link) (w : W) → Grows w (k.perform (link_set_up link) w).1
  set_up-Grows link w = record {
    stays = λ p h. rw (master-set_up link w p) h;
    inside = λ p h. rw (master-set_up link w p) h;
  }

  -- The name of an interface that is there stands for its link.
  pub master-there :
      (n : String) (w : W) (link : Link)
      → k.link_by_name n w ≡ ok link
      → master k n w ≡ some link.master_index
  master-there n w link found = master-found k grants br n n w (ok link) found (beq_refl n)

  -- `join_bridge` with a link that was looked up, or made, under the name `n`.
  pub record Joined (n : String) (o : Outcome W (Unit {0})) (w : W) : Type 0 where
    pub end : State W
    pub ran : o ≡ returned tt end
    pub grew : Grows w end.world
    pub joined : master k n end.world ≡ some br.index
    pub no_others : (p : String) → n ≢ p → master k p w ≡ none → master k p end.world ≡ none

  pub join_bridge-Joined :
      (n : String) (link : Link) (s : State W)
      → link.name ≡ n
      → master k n s.world ≡ some link.master_index
      → Joined n (join_bridge k br (some (some link)) s) s.world
  unfolding join_bridge deref netlink pure ◌>>=◌
  join_bridge-Joined n link s named holds = elim (Bool-cases (link.master_index == br.index)) [
    | inl same ↦ record {
      end = s;
      ran = rw same refl;
      grew = Grows-refl s.world;
      joined = holds ∙ ap some ((nat_beq_iff link.master_index br.index).0 same);
      no_others = λ p other h. h;
    }
    | inr other ↦ record {
      end = record s {
        calls = s.calls ++ net (link_set_master link br) ∷ [];
        world = (k.perform (link_set_master link br) s.world).1;
      };
      ran = rw other refl;
      grew = set_master-Grows link s.world;
      joined = grants.master-set_master link br s.world n ∙ rw (named, beq_refl n, holds) refl;
      no_others = λ p other h. ground (arith, grants.master-set_master link br s.world p, h);
    }
  ]

  pub create-Joined :
      (new : Link) (s : State W)
      → k.link_by_name new.name s.world ≡ err not_found
      → Joined new.name ((create_vlan k br new >>= join_bridge k br) s) s.world
  unfolding create_vlan netlink gets set_port modify_ports pure ◌>>=◌ is_nil
  create-Joined new s free =
      let w1 = (k.perform (link_add new) s.world).1 in
      let link = k.ensure_index new w1 in
      let w2 = (k.perform (link_set_up link) w1).1 in
      let t : State W = record s {
        calls = (s.calls ++ net (link_add new) ∷ []) ++ net (link_set_up link) ∷ [];
        world = w2;
        managed_bridge_ports = (set_port_management br.name new.name true s.managed_bridge_ports).1;
      } in
      let holds : master k new.name w2 ≡ some link.master_index =
        master-set_up link w1 new.name
        ∙ master-add new s.world new.name free
        ∙ rw (beq_refl new.name, (ensured new s.world free).1) refl in
      let last = join_bridge-Joined new.name link t (ensured new s.world free).0 holds in
      record {
        end = last.end;
        ran = rw (adds new s.world free, sets_up link w1) last.ran;
        grew =
            Grows-trans s.world w1 last.end.world (add-Grows new s.world free)
              (Grows-trans w1 w2 last.end.world (set_up-Grows link w1) last.grew);
        joined = last.joined;
        no_others = λ p other h. last.no_others p other (
            master-set_up link w1 p
            ∙ master-add new s.world p free
            ∙ ground (arith, h, other, eq_iff new.name p));
      }
