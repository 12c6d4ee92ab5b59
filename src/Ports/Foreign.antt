-- ===== src/Ports/Foreign.antt =====
-- What is left of the ports of a bridge in the table once `RemovePortManagement` (pkg/server/server.go)
-- was called for some of them.
use mathlib.Core.Path.{subst}
use text.Mathlib.TextEquality.{eq_iff}
use bridge_operator.Prelude.{
  Bool, Option-cases, String, arith, false, if◌then◌else◌, inl, inr, int_eq, nat_eq, some,
  string_eq, sym, true, ◌∙◌, ◌≡◌, ◌≢◌,
}
use bridge_operator.GoMap.{GoMap, has, lookup, remove}
use bridge_operator.GoMap.Laws.{DistinctKeys, lookup-put, remove-DistinctKeys}
use bridge_operator.Ports.{is_port_managed, remove_port_management}
use bridge_operator.Ports.Laws.{
  has-remove_port_management, is_port_managed-port_entry, port_entry,
  port_entry-remove_port_management,
}
use bridge_operator.State.{Ports}
use bridge_operator.Types.{interface_eq, vlan_interface_eq}

-- The table has the bridge, and each of its ports once.
pub record KnownBridge (b : String) (m : Ports) : Type 0 where
  pub known : has b m ≡ true
  pub once : (ports : GoMap String Bool) → lookup b m ≡ some ports → DistinctKeys ports

-- The port `n` is not recorded as somebody else's.
abbrev pub NotForeign : String → String → Ports → Type 0
NotForeign b n m = port_entry b n m ≢ some false

pub same_ports : {p q : GoMap String Bool} → some p ≡ some q → p ≡ q
same_ports e = cc

lookup-remove_port_management :
    (b port : String) (m : Ports) (ps : GoMap String Bool)
    → lookup b m ≡ some ps
    → lookup b (remove_port_management b port m).1
      ≡ some (if has port ps then remove port ps else ps)
unfolding remove_port_management
lookup-remove_port_management b port m ps h =
    ground (arith, h, lookup-put b b (remove port ps) m, eq_iff b b)

pub removed-KnownBridge :
    (b port : String) (m : Ports)
    → KnownBridge b m
    → KnownBridge b (remove_port_management b port m).1
unfolding has
removed-KnownBridge b port m h = record {
  known = has-remove_port_management b port b m ∙ h.known;
  once = λ ports found. elim (Option-cases (lookup b m)) [
    | inl gone ↦ absurd (ground (arith, h.known, gone))
    | inr (ps, old) ↦
        subst DistinctKeys
          (same_ports (sym (lookup-remove_port_management b port m ps old) ∙ found))
          (if_DistinctKeys port ps (has port ps) (h.once ps old))
  ];
}
  where
    if_DistinctKeys :
        (p : String) (ps : GoMap String Bool) (q : Bool)
        → DistinctKeys ps
        → DistinctKeys (if q then remove p ps else ps)
    if_DistinctKeys p ps true d = remove-DistinctKeys p ps d
    if_DistinctKeys p ps false d = d

pub removed-NotForeign :
    (b port n : String) (m : Ports)
    → NotForeign b n m
    → NotForeign b n (remove_port_management b port m).1
removed-NotForeign b port n m h e =
    h (ground (arith, port_entry-remove_port_management b port b n m, e, eq_iff b b))

pub removed_self-NotForeign :
    (b port : String) (m : Ports) → NotForeign b port (remove_port_management b port m).1
removed_self-NotForeign b port m e =
    ground
      (arith, port_entry-remove_port_management b port b port m, e, eq_iff b b, eq_iff port port)

pub managed-NotForeign :
    (b port : String) (m : Ports) → is_port_managed b port m ≡ true → NotForeign b port m
managed-NotForeign b port m h e = ground (arith, is_port_managed-port_entry b port m, h, e)
