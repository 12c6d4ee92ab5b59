-- ===== src/State/Issues.antt =====
-- The mutating calls that an action makes.
use mathlib.Core.List.{append-nil, append_assoc}
use bridge_operator.Prelude.{All, All-append, List, [], ap, refl, sym, ◌++◌, ◌∙◌, ◌∷◌, ◌≡◌}
use bridge_operator.Netlink.{Kernel, NetCall}
use bridge_operator.State.{Call, Ports, State, modify_ports, net, netlink}
use bridge_operator.State.Keeps.{Keeps}

-- From `s` to `t` only allowed calls were made.
pub record Issues {W : Type 0} (Allowed : Call → Type 0) (s t : State W) : Type 0 where
  pub new : List Call
  pub grown : t.calls ≡ s.calls ++ new
  pub allowed : All Allowed new

module _ {W : Type 0} {Allowed : Call → Type 0} where
  pub Issues-refl : (s : State W) → Issues Allowed s s
  Issues-refl s = record { new = []; grown = sym (append-nil s.calls); allowed = tt }

  -- What does not make a call.
  pub Issues-quiet :
      {s t : State W} (u : State W) → Issues Allowed s t → u.calls ≡ t.calls → Issues Allowed s u
  Issues-quiet u h e = record { new = h.new; grown = e ∙ h.grown; allowed = h.allowed }

  pub Issues-call :
      {s t : State W} (u : State W) (c : Call)
      → Issues Allowed s t
      → u.calls ≡ t.calls ++ c ∷ []
      → Allowed c
      → Issues Allowed s u
  Issues-call {s} u c h e ok_c = record {
    new = h.new ++ c ∷ [];
    grown = e ∙ ap (λ l. l ++ c ∷ []) h.grown ∙ append_assoc s.calls h.new (c ∷ []);
    allowed = All-append Allowed h.new (c ∷ []) h.allowed (ok_c, tt);
  }

module _ {W : Type 0} {Allowed : Call → Type 0} (s : State W) where
  pub netlink-Issues :
      (k : Kernel W) (c : NetCall) → Allowed (net c) → Keeps (Issues Allowed s) (netlink k c)
  unfolding netlink
  netlink-Issues k c ok_c = record { at = λ t h. Issues-call _ (net c) h refl ok_c }

  pub modify_ports-Issues : (f : Ports → Ports) → Keeps (Issues Allowed s) (modify_ports f)
  unfolding modify_ports
  modify_ports-Issues f = record { at = λ t h. Issues-quiet _ h refl }
