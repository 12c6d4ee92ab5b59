-- ===== src/Egress/Masters.antt =====
-- Which ports are in the bridge after `egressInterfaceReconcile` (pkg/server/bridgeconfig.go).
pub mod Steps
pub mod Release
pub mod Reconcile
use bridge_operator.Prelude.{
  Bool, List, Option, Result, String, [], arith, err, false, if◌then◌else◌, int_eq, nat_eq, none,
  ok, refl, some, string_eq, ℕ, ◌==◌, ◌||◌, ◌∙◌, ◌∷◌, ◌≡◌,
}
use bridge_operator.Egress.Spares.{IsNamed}
use bridge_operator.Netlink.{Kernel, Link, link_set_master, link_set_no_master}
use bridge_operator.State.{M, State, for_each, pure, returned, ◌>>=◌}
use bridge_operator.Types.{EgressInterface, interface_eq, vlan_interface_eq}

-- The master of a link that was looked up, if there is one.
abbrev pub master_of : Result Link → Option ℕ
master_of (err e) = none
master_of (ok link) = some link.master_index

abbrev pub zeroed : Option ℕ → Option ℕ
zeroed none = none
zeroed (some m) = some 0

-- The master of a link that is attached to a bridge of the index `i` if it has no master.
abbrev pub attached : ℕ → Option ℕ → Option ℕ
attached i none = none
attached i (some m) = some (if m == 0 then i else m)

abbrev pub moved : ℕ → Option ℕ → Option ℕ
moved i none = none
moved i (some m) = some i

abbrev pub mentions : String → List EgressInterface → Bool
mentions p [] = false
mentions p (x ∷ xs) = x.name == p || mentions p xs

module _ {W : Type 0} (k : Kernel W) where
  unfoldable pub master : String → W → Option ℕ
  master p w = master_of (k.link_by_name p w)

  -- The kernel refuses no change of a master, and changes the master of the one link.
  pub record GrantsMasters : Type 0 where
    pub named : IsNamed k
    pub set_master : (link br : Link) (w : W) → (k.perform (link_set_master link br) w).0 ≡ none
    pub set_no_master : (link : Link) (w : W) → (k.perform (link_set_no_master link) w).0 ≡ none
    pub master-set_master :
        (link br : Link) (w : W) (p : String)
        → master p (k.perform (link_set_master link br) w).1
          ≡ (if link.name == p then moved br.index (master p w) else master p w)
    pub master-set_no_master :
        (link : Link) (w : W) (p : String)
        → master p (k.perform (link_set_no_master link) w).1
          ≡ (if link.name == p then moved 0 (master p w) else master p w)

-- A loop whose body brings `G` to `F` for the element of a name, and keeps `F`.
module _ {W X : Type 0} (p : String) (F G : State W → X)
    (body : EgressInterface → M W (Unit {0})) where
  pub record Brings (v : EgressInterface) (s : State W) : Type 0 where
    pub after : State W
    pub runs : body v s ≡ returned tt after
    pub keeps : F after ≡ F s
    pub brings : G after ≡ (if v.name == p then F s else G s)

  pub record BringsAll (vs : List EgressInterface) (s : State W) : Type 0 where
    pub end : State W
    pub all_run : for_each vs body s ≡ returned tt end
    pub all_keep : F end ≡ F s
    pub all_bring : G end ≡ (if mentions p vs then F s else G s)

  pub for_each-BringsAll :
      ((v : EgressInterface) (s : State W) → Brings v s)
      → (vs : List EgressInterface) (s : State W) → BringsAll vs s
  unfolding for_each pure ◌>>=◌
  for_each-BringsAll step [] s = record {
    end = s;
    all_run = refl;
    all_keep = refl;
    all_bring = refl;
  }
  for_each-BringsAll step (v ∷ vs) s =
      let one = step v s in
      let rest = for_each-BringsAll step vs one.after in
      record {
        end = rest.end;
        all_run = rw one.runs rest.all_run;
        all_keep = rest.all_keep ∙ one.keeps;
        all_bring = ground (arith, rest.all_bring, one.keeps, one.brings);
      }
