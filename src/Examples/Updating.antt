-- ===== src/Examples/Updating.antt =====
-- Updates that change the VLAN interfaces, on the small kernel.
use mathlib.Core.Path.{subst}
use text.Mathlib.TextEquality.{eq_iff}
use bridge_operator.Prelude.{
  Bool-cases, String, [], arith, contains, err, if◌then◌else◌, inl, inr, int_eq, keep, nat_eq, not,
  not_found, ok, pos, refl, some, string_eq, true, ℕ, ◌==◌, ◌∷◌, ◌≡◌,
}
use bridge_operator.Egress.Masters.{master}
use bridge_operator.Examples.Deleting.{small_kernel-GrantsDeletion}
use bridge_operator.Examples.Attaching.{small_kernel-GrantsMasters}
use bridge_operator.Examples.Configuring.{small_kernel-GrantsBridge}
use bridge_operator.Examples.Joining.{lan}
use bridge_operator.Examples.World.{
  World, config, find_name, link, server, small_cluster, small_kernel, with_master,
}
use bridge_operator.GoMap.{lookup}
use bridge_operator.Netlink.{
  Link, NetCall, bridge_device, bridge_set_vlan_filtering, bridge_vlan_add, bridge_vlan_del,
  link_add, link_del, link_set_master, link_set_no_master, link_set_up, other_device, vlan_device,
  vlan_protocol_8021q,
}
use bridge_operator.Ports.{is_port_managed}
use bridge_operator.Server.{on_bridge_config_update}
use bridge_operator.Server.Joins.{on_bridge_config_update-joins}
use bridge_operator.Server.Removes.{on_bridge_config_update-removes}
use bridge_operator.State.{State, returned}
use bridge_operator.Tracker.{name_eq}
use bridge_operator.Types.{BridgeConfiguration, interface_eq, vlan_interface_eq}
use bridge_operator.Vlan.Removed.{Distinct, GrantsRemovals, makes_none}
use bridge_operator.VlanName.{generate_egress_vlan_interface_name}
use bridge_operator.VlanName.Injective.{NoDot, name-not-NoDot}

find-without :
    (n p : String) (w : World)
    → find_name p (keep (λ m. not (m.name == n)) w)
      ≡ (if n == p then err not_found else find_name p w)
unfolding keep
find-without n p [] = ground arith
find-without n p (l ∷ w) =
    ground (arith, find-without n p w, eq_iff l.name n, eq_iff l.name p, eq_iff n p)

find-with_master :
    (n : String) (i : ℕ) (p : String) (w : World) (l : Link)
    → find_name p (with_master n i w) ≡ ok l
    → (was : Link) × (find_name p w ≡ ok was) × (was.index ≡ l.index)
find-with_master n i p [] l found = cc
find-with_master n i p (m ∷ w) l found = elim (Bool-cases (m.name == p)) [
  | inl here_it_is ↦ (m, rw here_it_is refl, ground (arith, here_it_is, found))
  | inr further ↦
      let (was, e, same) = find-with_master n i p w l (ground (arith, further, found)) in
      (was, rw further e, same)
]

same_index :
    (a : NetCall) (w : World) (p : String) (l : Link)
    → makes_none a ≡ true
    → find_name p (small_kernel.perform a w).1 ≡ ok l
    → (was : Link) × (find_name p w ≡ ok was) × (was.index ≡ l.index)
same_index (link_add x) w p l makes found = cc
same_index (link_set_up x) w p l makes found = cc
same_index (link_del x) w p l makes found =
    (l, ground (arith, found, find-without x.name p w), refl)
same_index (link_set_no_master x) w p l makes found = find-with_master x.name 0 p w l found
same_index (link_set_master x br) w p l makes found = find-with_master x.name br.index p w l found
same_index (bridge_set_vlan_filtering x on) w p l makes found = cc
same_index (bridge_vlan_add x a b d e f) w p l makes found = cc
same_index (bridge_vlan_del x a b d e f) w p l makes found = cc

small_kernel-GrantsRemovals : GrantsRemovals small_kernel
unfolding master
small_kernel-GrantsRemovals = record {
  gone = small_kernel-GrantsDeletion.gone;
  makes_no_link = λ l w p away. ground (arith, away, find-without l.name p w);
  moves_no_other = λ l w p m inside other. elim (Bool-cases (l.name == p)) [
    | inl same ↦ inl (ground (arith, same, find-without l.name p w))
    | inr away ↦ inr (ground (arith, away, inside, find-without l.name p w))
  ];
  same_index = same_index;
}

abbrev br0 : Link
br0 = link "br0" 7 0 (bridge_device (some true))

abbrev eth0 : Link
eth0 = link "eth0" 2 0 (other_device "device")

-- The link of `lan`, in the bridge.
abbrev lan_link : Link
lan_link = link "eth0.10" 9 7 (vlan_device (pos 10) vlan_protocol_8021q)

abbrev bridged : State World
bridged = server (("br0", ("eth0.10", true) ∷ []) ∷ []) (br0 ∷ eth0 ∷ lan_link ∷ [])

abbrev unbridged : State World
unbridged = server (("br0", []) ∷ []) (br0 ∷ eth0 ∷ [])

abbrev with_lan : BridgeConfiguration
with_lan = config "br0" [] (lan ∷ [])

abbrev without_lan : BridgeConfiguration
without_lan = config "br0" [] []

plain_name : NoDot "br0"
plain_name =
    ((λ e. absurd (omega arith)), ((λ e. absurd (omega arith)), ((λ e. absurd (omega arith)), tt)))

bridged-Distinct :
    Distinct small_kernel small_kernel-GrantsMasters small_kernel-GrantsRemovals br0
      (generate_egress_vlan_interface_name lan)
      bridged.world
bridged-Distinct v l found same =
    elim (Bool-cases ("br0" == generate_egress_vlan_interface_name v)) [
      | inl dotted ↦ absurd (
          name-not-NoDot v (
            subst NoDot ((eq_iff "br0" (generate_egress_vlan_interface_name v)).0 dotted)
              plain_name))
      | inr other ↦ absurd (ground (arith, other, found, same))
    ]

removed_example :
    (t : State World) × (on_bridge_config_update small_kernel
        (small_cluster [])
        with_lan
        without_lan
        bridged
      ≡ returned tt t)
    × (find_name (generate_egress_vlan_interface_name lan) t.world ≡ err not_found)
unfolding contains master is_port_managed lookup generate_egress_vlan_interface_name
removed_example =
    on_bridge_config_update-removes small_kernel small_kernel-GrantsBridge
      small_kernel-GrantsRemovals (small_cluster []) with_lan without_lan br0 true lan bridged refl
      refl refl bridged-Distinct refl refl refl refl refl refl tt

joined_example :
    (t : State World) × (on_bridge_config_update small_kernel
        (small_cluster [])
        without_lan
        with_lan
        unbridged
      ≡ returned tt t)
    × (master small_kernel (generate_egress_vlan_interface_name lan) t.world ≡ some 7)
unfolding contains master
joined_example =
    on_bridge_config_update-joins small_kernel small_kernel-GrantsBridge (small_cluster [])
      without_lan with_lan br0 true lan unbridged refl refl tt refl refl refl
