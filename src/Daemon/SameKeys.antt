-- ===== src/Daemon/SameKeys.antt =====
-- The keys of `managedBridges` and `managedBridgePorts`.
use text.Mathlib.TextEquality.{eq_iff}
use bridge_operator.Prelude.{
  Bool, String, [], arith, int_eq, nat_eq, refl, string_eq, sym, ◌∙◌, ◌≡◌,
}
use bridge_operator.Cluster.{ApiCall, Cluster}
use bridge_operator.Daemon.{Reach, new_server}
use bridge_operator.Daemon.Steps.{IsInvariant, Reach-Keeps}
use bridge_operator.GoMap.{has}
use bridge_operator.GoMap.Laws.{has-clear, has-put, has-remove_if}
use bridge_operator.Netlink.{Kernel, NetCall}
use bridge_operator.Ports.{remove_port, set_bridge_management, set_port, unset_bridge_management}
use bridge_operator.Ports.Laws.{has-remove_port_management, has-set_port_management}
use bridge_operator.State.{State, gets, modify_bridges, modify_ports, netlink, pure, request, ◌>>=◌}
use bridge_operator.State.Keeps.{Keeps}
use bridge_operator.Tracker.{name_eq}
use bridge_operator.Types.{interface_eq, vlan_interface_eq}

pub record SameKeys {W : Type 0} (s : State W) : Type 0 where
  pub at_bridge : (b : String) → has b s.managed_bridges ≡ has b s.managed_bridge_ports

module _ {W : Type 0} where
  set_port-SameKeys :
      (br port : String) (managed : Bool) → Keeps {W = W} SameKeys (set_port br port managed)
  unfolding set_port modify_ports
  set_port-SameKeys br port managed = record {
    at = λ s h. record {
      at_bridge = λ b.
          h.at_bridge b ∙ sym (has-set_port_management br port b managed s.managed_bridge_ports);
    };
  }

  remove_port-SameKeys : (br port : String) → Keeps {W = W} SameKeys (remove_port br port)
  unfolding remove_port modify_ports
  remove_port-SameKeys br port = record {
    at = λ s h. record {
      at_bridge =
          λ b. h.at_bridge b ∙ sym (has-remove_port_management br port b s.managed_bridge_ports);
    };
  }

  set_bridge_management-SameKeys :
      (br : String) (managed : Bool) → Keeps {W = W} SameKeys (set_bridge_management br managed)
  unfolding set_bridge_management modify_ports modify_bridges gets pure ◌>>=◌
  set_bridge_management-SameKeys br managed = record {
    at = λ s h. record {
      at_bridge = λ b. ground (
        arith,
        h.at_bridge b,
        h.at_bridge br,
        eq_iff br b,
        has-put br b managed s.managed_bridges,
        has-put br b [] s.managed_bridge_ports,
      );
    };
  }

  unset_bridge_management-SameKeys :
      (br : String) → Keeps {W = W} SameKeys (unset_bridge_management br)
  unfolding unset_bridge_management modify_ports modify_bridges pure ◌>>=◌
  unset_bridge_management-SameKeys br = record {
    at = λ s h. record {
      at_bridge = λ b. ground (
        arith,
        h.at_bridge b,
        has-remove_if br b s.managed_bridges,
        has-clear br b [] s.managed_bridge_ports,
      );
    };
  }

module _ {W : Type 0} (k : Kernel W) (c : Cluster W) where
  netlink-SameKeys : (a : NetCall) → Keeps SameKeys (netlink k a)
  unfolding netlink
  netlink-SameKeys a = record { at = λ s h. record { at_bridge = h.at_bridge } }

  request-SameKeys : (a : ApiCall) → Keeps SameKeys (request c a)
  unfolding request
  request-SameKeys a = record { at = λ s h. record { at_bridge = h.at_bridge } }

  SameKeys-IsInvariant : IsInvariant k c SameKeys
  SameKeys-IsInvariant = record {
    steady = record {
      stable = record {
        netlink_keeps = netlink-SameKeys;
        set_keeps = set_port-SameKeys;
        remove_keeps = remove_port-SameKeys;
      };
      request_keeps = request-SameKeys;
      manage_keeps = set_bridge_management-SameKeys;
      unmanage_keeps = unset_bridge_management-SameKeys;
    };
    world_keeps = λ w s h. record { at_bridge = h.at_bridge };
  }

  new_server-SameKeys : (hostname : String) (w : W) → SameKeys (new_server hostname w)
  unfolding new_server has
  new_server-SameKeys hostname w = record { at_bridge = λ b. refl }

  -- Whatever the daemon is told and whatever the world does, from its start on a bridge has an
  -- entry in `managedBridges` exactly when it has one in `managedBridgePorts`.
  pub Reach-SameKeys :
      (hostname : String) (w : W) {t : State W} → Reach k c (new_server hostname w) t → SameKeys t
  Reach-SameKeys hostname w r =
      Reach-Keeps k c SameKeys-IsInvariant r (new_server-SameKeys hostname w)
