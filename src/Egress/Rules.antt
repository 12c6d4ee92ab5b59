-- ===== src/Egress/Rules.antt =====
-- Invariants of the steps of `egressInterfaceReconcile`, from the calls that each step makes.
use bridge_operator.Prelude.{
  All, All-keep, Bool, Eq, List, Result, String, [], ap, contains, err, int_eq, keep, nat_eq, not,
  ok, refl, string_eq, ◌∷◌, ◌≡◌,
}
use bridge_operator.Egress.{add_interface, attach, difference, remove_interface, unset_master}
use bridge_operator.Netlink.{Kernel, Link, link_set_master, link_set_no_master}
use bridge_operator.Ports.{remove_port, set_port}
use bridge_operator.State.{State, gets, netlink, ◌>>=◌}
use bridge_operator.State.Keeps.{Keeps, keeps_rules}
use bridge_operator.Types.{EgressInterface, interface_eq, vlan_interface_eq}

pub All-difference {κ} :
    {A : Type 0} ⦃e : Eq A⦄ (P : A → Type κ) (xs ys : List A) → All P xs → All P (difference xs ys)
unfolding difference
All-difference P xs ys h = All-keep P (λ x. not (contains x ys)) xs h

pub difference-nil : {A : Type 0} ⦃e : Eq A⦄ (xs : List A) → difference xs [] ≡ xs
unfolding difference keep contains
difference-nil [] = refl
difference-nil (x ∷ xs) = ap (λ l. x ∷ l) (difference-nil xs)

module _ {W : Type 0} (k : Kernel W) {P : State W → Type 0} where
  unset_master_ok :
      (link : Link)
      → Keeps P (netlink k (link_set_no_master link))
      → Keeps P (unset_master k (ok link))
  unfolding unset_master
  unset_master_ok link step = search keeps_rules

  unset_master-Keeps :
      ((link : Link) → Keeps P (netlink k (link_set_no_master link)))
      → (r : Result Link) → Keeps P (unset_master k r)
  unfolding unset_master
  unset_master-Keeps calls (err e) = search keeps_rules
  unset_master-Keeps calls (ok link) = unset_master_ok link (calls link)

  pub Keeps-unset_master :
      (r : Result Link)
      → ((link : Link) → r ≡ ok link → Keeps P (netlink k (link_set_no_master link)))
      → Keeps P (unset_master k r)
  unfolding unset_master
  Keeps-unset_master (err e) step = search keeps_rules
  Keeps-unset_master (ok link) step = unset_master_ok link (step link refl)

  attach_ok :
      (br : Link) (port : String) (link : Link)
      → Keeps P (netlink k (link_set_master link br))
      → ((managed : Bool) → Keeps P (set_port br.name port managed))
      → Keeps P (attach k br port (ok link))
  unfolding attach
  attach_ok br port link call records = search keeps_rules depth 7

  attach-Keeps :
      (br : Link) (port : String)
      → ((link : Link) → Keeps P (netlink k (link_set_master link br)))
      → ((managed : Bool) → Keeps P (set_port br.name port managed))
      → (r : Result Link) → Keeps P (attach k br port r)
  unfolding attach
  attach-Keeps br port calls records (err e) = search keeps_rules
  attach-Keeps br port calls records (ok link) = attach_ok br port link (calls link) records

  pub Keeps-add_interface :
      (br : Link) (v : EgressInterface)
      → ((link : Link) → Keeps P (netlink k (link_set_master link br)))
      → ((managed : Bool) → Keeps P (set_port br.name v.name managed))
      → Keeps P (add_interface k br v)
  unfolding add_interface
  Keeps-add_interface br v calls records = search (keeps_rules, attach-Keeps br v.name)

  attach-found :
      (br : Link) (port : String) (r : Result Link)
      → ((link : Link) → r ≡ ok link → Keeps P (netlink k (link_set_master link br)))
      → ((managed : Bool) → Keeps P (set_port br.name port managed))
      → Keeps P (attach k br port r)
  unfolding attach
  attach-found br port (err e) calls records = search keeps_rules
  attach-found br port (ok link) calls records = attach_ok br port link (calls link refl) records

  -- Where only a link that was looked up by the name of the interface is attached.
  pub Keeps-add_found :
      (br : Link) (v : EgressInterface)
      → ((link : Link) (w : W)
          → k.link_by_name v.name w ≡ ok link
          → Keeps P (netlink k (link_set_master link br)))
      → ((managed : Bool) → Keeps P (set_port br.name v.name managed))
      → Keeps P (add_interface k br v)
  unfolding add_interface gets ◌>>=◌
  Keeps-add_found br v calls records = record {
    at = λ s h.
        (attach-found br v.name (k.link_by_name v.name s.world)
            (λ link found. calls link s.world found) records).at
          s h;
  }

  pub Keeps-remove_interface :
      (br : Link) (v : EgressInterface)
      → ((link : Link) → Keeps P (netlink k (link_set_no_master link)))
      → Keeps P (remove_port br.name v.name)
      → Keeps P (remove_interface k br v)
  unfolding remove_interface
  Keeps-remove_interface br v calls forget = search (keeps_rules, unset_master-Keeps calls) depth 8
