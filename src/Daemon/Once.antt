-- ===== src/Daemon/Once.antt =====
-- The tables hold each port of a bridge once, as Go's maps do: the entries of the model's lists
-- never repeat a key.
use mathlib.Core.Path.{subst}
use bridge_operator.Prelude.{
  Bool, Bool-cases, Option-cases, String, [], arith, false, if◌then◌else◌, inl, inr, int_eq, nat_eq,
  refl, some, string_eq, sym, true, ◌==◌, ◌∙◌, ◌≡◌,
}
use bridge_operator.Cluster.{Cluster}
use bridge_operator.Daemon.{Reach, new_server}
use bridge_operator.Daemon.Steps.{IsInvariant, Reach-Keeps}
use bridge_operator.GoMap.{GoMap, has, lookup, put, remove}
use bridge_operator.GoMap.Laws.{
  DistinctKeys, lookup-put, lookup-remove, put-DistinctKeys, remove-DistinctKeys,
}
use bridge_operator.Netlink.{Kernel}
use bridge_operator.Ports.{
  remove_port, remove_port_management, set_bridge_management, set_port, set_port_management,
  unset_bridge_management,
}
use bridge_operator.Ports.Foreign.{same_ports}
use bridge_operator.State.{
  Ports, State, gets, modify_bridges, modify_ports, netlink, pure, request, ◌>>=◌,
}
use bridge_operator.State.Keeps.{Keeps}
use bridge_operator.Tracker.{name_eq}
use bridge_operator.Types.{interface_eq, vlan_interface_eq}

-- Each port of a bridge stands once.
abbrev Once : Ports → Type 0
Once m = (b : String) (ports : GoMap String Bool) → lookup b m ≡ some ports → DistinctKeys ports

Once-put :
    (br : String) (ps : GoMap String Bool) (m : Ports)
    → DistinctKeys ps
    → Once m
    → Once (put br ps m)
Once-put br ps m d h b ports found = elim (Bool-cases (br == b)) [
  | inl same ↦ subst DistinctKeys (same_ports (sym (lookup-put br b ps m ∙ rw same refl) ∙ found)) d
  | inr other ↦ h b ports (sym (lookup-put br b ps m ∙ rw other refl) ∙ found)
]

Once-remove : (br : String) (m : Ports) → Once m → Once (remove br m)
Once-remove br m h b ports found = elim (Bool-cases (br == b)) [
  | inl same ↦ absurd (ground (arith, lookup-remove br b m, same, found))
  | inr other ↦ h b ports (sym (lookup-remove br b m ∙ rw other refl) ∙ found)
]

Once-set_port_management :
    (br port : String) (managed : Bool) (m : Ports)
    → Once m
    → Once (set_port_management br port managed m).1
unfolding set_port_management
Once-set_port_management br port managed m h = elim (Option-cases (lookup br m)) [
  | inl gone ↦ rw (set_port_management, gone) h
  | inr (ports, found) ↦ elim (Option-cases (lookup port ports)) [
    | inl new ↦
        rw (set_port_management, found, new)
          (Once-put br (put port managed ports) m
            (put-DistinctKeys port managed ports (h br ports found)) h)
    | inr (val, old) ↦ rw (set_port_management, found, old) h
  ]
]

Once-remove_port_management :
    (br port : String) (m : Ports) → Once m → Once (remove_port_management br port m).1
unfolding remove_port_management
Once-remove_port_management br port m h = elim (Option-cases (lookup br m)) [
  | inl gone ↦ rw (remove_port_management, gone) h
  | inr (ports, found) ↦ elim (Bool-cases (has port ports)) [
    | inl old ↦
        rw (remove_port_management, found, old)
          (Once-put br (remove port ports) m (remove-DistinctKeys port ports (h br ports found)) h)
    | inr new ↦ rw (remove_port_management, found, new) h
  ]
]

Once-if : (q : Bool) (m n : Ports) → Once m → Once n → Once (if q then m else n)
Once-if true m n h k = h
Once-if false m n h k = k

-- The same of a state.
pub record HoldsOnce {W : Type 0} (s : State W) : Type 0 where
  pub once : Once s.managed_bridge_ports

module _ {W : Type 0} where
  set_port-HoldsOnce :
      (br port : String) (managed : Bool) → Keeps {W = W} HoldsOnce (set_port br port managed)
  unfolding set_port modify_ports
  set_port-HoldsOnce br port managed = record {
    at = λ s h. record {
      once = Once-set_port_management br port managed s.managed_bridge_ports h.once;
    };
  }

  remove_port-HoldsOnce : (br port : String) → Keeps {W = W} HoldsOnce (remove_port br port)
  unfolding remove_port modify_ports
  remove_port-HoldsOnce br port = record {
    at = λ s h. record { once = Once-remove_port_management br port s.managed_bridge_ports h.once };
  }

  set_bridge_management-HoldsOnce :
      (br : String) (managed : Bool) → Keeps {W = W} HoldsOnce (set_bridge_management br managed)
  unfolding set_bridge_management modify_ports modify_bridges gets pure ◌>>=◌
  set_bridge_management-HoldsOnce br managed = record {
    at = λ s h. elim (Bool-cases (has br s.managed_bridges)) [
      | inl known ↦ rw known h
      | inr new ↦ elim (Bool-cases (has br s.managed_bridge_ports)) [
        | inl present ↦ rw (new, present) (record { once = h.once })
        | inr absent ↦
            rw (new, absent) (record { once = Once-put br [] s.managed_bridge_ports tt h.once })
      ]
    ];
  }

  unset_bridge_management-HoldsOnce :
      (br : String) → Keeps {W = W} HoldsOnce (unset_bridge_management br)
  unfolding unset_bridge_management modify_ports modify_bridges pure ◌>>=◌
  unset_bridge_management-HoldsOnce br = record {
    at = λ s h.
        let m = s.managed_bridge_ports in
        record {
          once = Once-remove br _ (
              Once-if (has br m) (remove br (put br [] m)) m
                (Once-remove br (put br [] m) (Once-put br [] m tt h.once)) h.once);
        };
  }

module _ {W : Type 0} (k : Kernel W) (c : Cluster W) where
  HoldsOnce-IsInvariant : IsInvariant k c HoldsOnce
  unfolding netlink request
  HoldsOnce-IsInvariant = record {
    steady = record {
      stable = record {
        netlink_keeps = λ a. record { at = λ s h. record { once = h.once } };
        set_keeps = set_port-HoldsOnce;
        remove_keeps = remove_port-HoldsOnce;
      };
      request_keeps = λ a. record { at = λ s h. record { once = h.once } };
      manage_keeps = set_bridge_management-HoldsOnce;
      unmanage_keeps = unset_bridge_management-HoldsOnce;
    };
    world_keeps = λ w s h. record { once = h.once };
  }

  -- Whatever the daemon is told and whatever the world does, from its start on the table holds each
  -- port of a bridge once.
  pub Reach-HoldsOnce :
      (hostname : String) (w : W) {t : State W} → Reach k c (new_server hostname w) t → HoldsOnce t
  unfolding new_server lookup
  Reach-HoldsOnce hostname w r =
      Reach-Keeps k c HoldsOnce-IsInvariant r (record { once = λ b ports found. cc })
