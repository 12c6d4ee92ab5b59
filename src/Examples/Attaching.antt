-- ===== src/Examples/Attaching.antt =====
-- The physical interfaces of a bridge on the small kernel.
use text.Mathlib.TextEquality.{eq_iff}
use bridge_operator.Prelude.{
  String, [], arith, contains, if◌then◌else◌, int_eq, nat_eq, refl, some, string_eq, true, ℕ, ◌==◌,
  ◌∷◌, ◌≡◌,
}
use bridge_operator.Egress.Masters.{GrantsMasters, master, master_of, moved}
use bridge_operator.Egress.Masters.Reconcile.{wanted_master}
use bridge_operator.Examples.World.{
  World, find_name, interface, link, server, small_kernel, small_kernel-IsNamed, with_master,
}
use bridge_operator.GoMap.{lookup}
use bridge_operator.Netlink.{Link, bridge_device, other_device}
use bridge_operator.Ports.{is_port_managed}
use bridge_operator.State.{State}
use bridge_operator.Tracker.{name_eq}
use bridge_operator.Types.{interface_eq, vlan_interface_eq}

master-with_master :
    (n : String) (i : ℕ) (w : World) (p : String)
    → master_of (find_name p (with_master n i w))
      ≡ (if n == p then moved i (master_of (find_name p w)) else master_of (find_name p w))
master-with_master n i [] p = ground arith
master-with_master n i (l ∷ ls) p =
    ground (arith, master-with_master n i ls p, eq_iff l.name n, eq_iff l.name p, eq_iff n p)

pub small_kernel-GrantsMasters : GrantsMasters small_kernel
unfolding master
small_kernel-GrantsMasters = record {
  named = small_kernel-IsNamed;
  set_master = λ link br w. refl;
  set_no_master = λ link w. refl;
  master-set_master = λ link br w p. master-with_master link.name br.index w p;
  master-set_no_master = λ link w p. master-with_master link.name 0 w p;
}

abbrev pub br0 : Link
br0 = link "br0" 7 0 (bridge_device (some true))

abbrev eth0 : Link
eth0 = link "eth0" 2 7 (other_device "device")

abbrev eth1 : Link
eth1 = link "eth1" 3 0 (other_device "device")

abbrev pub before : State World
before = server (("br0", ("eth0", true) ∷ []) ∷ []) (br0 ∷ eth0 ∷ eth1 ∷ [])

wanted_master_test :
    wanted_master small_kernel br0 (interface "eth0" ∷ []) (interface "eth1" ∷ []) "eth1" before
    ≡ some 7
unfolding contains master
wanted_master_test = refl

released_master_test :
    wanted_master small_kernel br0 (interface "eth0" ∷ []) (interface "eth1" ∷ []) "eth0" before
    ≡ some 0
unfolding contains is_port_managed lookup master
released_master_test = refl
