-- ===== src/State.antt =====
-- The daemon's state, and actions on it. An action returns, or panics: a panic ends the process.
-- Beside the fields of `Server` (pkg/server/server.go) the state has the world outside, and the
-- mutating calls made so far, oldest first. Log lines are left out.
pub mod Keeps
pub mod Gives
pub mod Yields
pub mod Issues
pub mod Safe
use bridge_operator.Prelude.{Bool, Error, List, Option, String, [], none, some, ◌++◌, ◌∷◌}
use bridge_operator.Cluster.{ApiCall, Cluster}
use bridge_operator.GoMap.{GoMap}
use bridge_operator.Netlink.{Kernel, NetCall}
use bridge_operator.Types.{BridgeInformation}

pub data Call : Type 0 where
  net : NetCall → Call
  api : ApiCall → Call

-- `managedBridgePorts`: whether the daemon manages a port, by bridge and port.
abbrev pub Ports : Type 0
Ports = GoMap String (GoMap String Bool)

pub record State (W : Type 0) : Type 0 where
  pub hostname : String
  pub managed_bridges : GoMap String Bool
  pub managed_bridge_ports : Ports
  pub calls : List Call
  pub world : W

pub data Outcome (W A : Type 0) : Type 0 where
  returned : A → State W → Outcome W A
  panicked : State W → Outcome W A

abbrev pub M : Type 0 → Type 0 → Type 0
M W A = State W → Outcome W A

-- The state that an action leaves.
abbrev pub final : {W A : Type 0} → Outcome W A → State W
final (returned a s) = s
final (panicked s) = s

module _ {W A : Type 0} where
  unfoldable pub pure : A → M W A
  pure a s = returned a s

  unfoldable pub panic : M W A
  panic s = panicked s

  unfoldable pub gets : (State W → A) → M W A
  gets f s = returned (f s) s

  -- A pointer that must not be nil.
  unfoldable pub deref : Option A → M W A
  unfolding pure panic
  deref none = panic
  deref (some a) = pure a

module _ {W A B : Type 0} where
  abbrev pub continue : Outcome W A → (A → M W B) → Outcome W B
  continue (returned a s) f = f a s
  continue (panicked s) f = panicked s

  infixl 10 ◌>>=◌ ◌>>◌
  unfoldable pub ◌>>=◌ : M W A → (A → M W B) → M W B
  (m >>= f) s = continue (m s) f

  abbrev pub ◌>>◌ : M W A → M W B → M W B
  m >> n = m >>= λ _. n

module _ {W A : Type 0} where
  -- `for _, x := range xs { body }`; `continue` in the source returns from the body.
  unfoldable pub for_each : List A → (A → M W (Unit {0})) → M W (Unit {0})
  unfolding pure
  for_each [] body = pure tt
  for_each (x ∷ xs) body = body x >> for_each xs body

module _ {W : Type 0} where
  -- A mutating netlink call, on the record and done.
  unfoldable pub netlink : Kernel W → NetCall → M W (Option Error)
  netlink k c s =
      let (e, w) = k.perform c s.world in
      returned e (record s { calls = s.calls ++ net c ∷ []; world = w })

  -- A mutating call of the API server.
  unfoldable pub request : Cluster W → ApiCall → M W (BridgeInformation × Option Error)
  request c a s =
      let (i, e, w) = c.request a s.world in
      returned (i, e) (record s { calls = s.calls ++ api a ∷ []; world = w })

  unfoldable pub modify_ports : (Ports → Ports) → M W (Unit {0})
  modify_ports f s = returned tt (record s { managed_bridge_ports = f s.managed_bridge_ports })

  unfoldable pub modify_bridges : (GoMap String Bool → GoMap String Bool) → M W (Unit {0})
  modify_bridges f s = returned tt (record s { managed_bridges = f s.managed_bridges })
