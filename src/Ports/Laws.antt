-- ===== src/Ports/Laws.antt =====
-- The laws of the table of ports.
use text.Mathlib.TextEquality.{eq_iff}
use bridge_operator.Prelude.{
  Bool, Option, Option-cases, String, arith, false, if◌then◌else◌, inl, inr, int_eq, nat_eq, none,
  some, string_eq, ◌&&◌, ◌==◌, ◌≡◌,
}
use bridge_operator.GoMap.{has, lookup, put, remove}
use bridge_operator.GoMap.Laws.{has-put_of_lookup, lookup-put, lookup-remove}
use bridge_operator.Ports.{is_port_managed, remove_port_management, set_port_management}
use bridge_operator.State.{Ports}
use bridge_operator.Types.{interface_eq, vlan_interface_eq}

-- Recording a port adds no bridge to the table and takes none away.
pub has-set_port_management :
    (br port b : String) (managed : Bool) (m : Ports)
    → has b (set_port_management br port managed m).1 ≡ has b m
unfolding set_port_management
has-set_port_management br port b managed m = grind (arith, has-put_of_lookup)

pub has-remove_port_management :
    (br port b : String) (m : Ports) → has b (remove_port_management br port m).1 ≡ has b m
unfolding remove_port_management
has-remove_port_management br port b m = grind (arith, has-put_of_lookup)

-- What is recorded of a port of a bridge.
unfoldable pub port_entry : String → String → Ports → Option Bool
port_entry br port m = elim (lookup br m) [ none ↦ none | some ports ↦ lookup port ports ]

abbrev pub or_else : Option Bool → Bool → Bool
or_else none b = b
or_else (some a) b = a

pub is_port_managed-port_entry :
    (br port : String) (m : Ports)
    → is_port_managed br port m ≡ or_else (port_entry br port m) false
unfolding is_port_managed port_entry
is_port_managed-port_entry br port m = ground arith

module _ (br port b n : String) (m : Ports) where
  -- `RemovePortManagement` takes out the one entry.
  pub port_entry-remove_port_management :
      port_entry b n (remove_port_management br port m).1
      ≡ (if br == b && port == n then none else port_entry b n m)
  unfolding port_entry remove_port_management has
  port_entry-remove_port_management = elim (Option-cases (lookup br m)) [
    | inl e ↦ ground (arith, eq_iff br b)
    | inr (ports, e) ↦ ground (
      arith,
      eq_iff br b,
      eq_iff port n,
      lookup-put br b (remove port ports) m,
      lookup-remove port n ports,
    )
  ]

  -- `SetPortManagement` adds an entry for a known bridge, and overwrites none.
  pub port_entry-set_port_management :
      (managed : Bool)
      → port_entry b n (set_port_management br port managed m).1 ≡ (
          if (br == b && port == n) && has b m
          then some (or_else (port_entry b n m) managed)
          else port_entry b n m)
  unfolding port_entry set_port_management has
  port_entry-set_port_management managed = elim (Option-cases (lookup br m)) [
    | inl e ↦ ground (arith, eq_iff br b)
    | inr (ports, e) ↦ ground (
      arith,
      eq_iff br b,
      eq_iff port n,
      lookup-put br b (put port managed ports) m,
      lookup-put port n managed ports,
    )
  ]
