-- ===== src/Examples/Factories.antt =====
-- The factory of informers at concrete inputs: the world counts the informers that were made.
use bridge_operator.Prelude.{
  All, List, String, [], int_eq, nat_eq, none, pos, some, string_eq, ℕ, ℤ, ◌+◌, ◌∷◌, ◌≡◌,
}
use bridge_operator.GoMap.{lookup}
use bridge_operator.GoMap.Laws.{DistinctKeys}
use bridge_operator.Informers.{
  NewInformerFunc, Operation, SharedInformerOption, custom_resync_config, end_op, in_namespace,
  informer_op, shutdown_op, start_op, tweak_list,
}
use bridge_operator.Informers.Once.{operate_each-DistinctKeys, reached}
use bridge_operator.Informers.Typed.{
  Client, ListWatch, bridge_configuration, new_filtered_informer, wire,
}
use bridge_operator.Informers.Typed.Registered.{wire-one}
use bridge_operator.Tracker.{name_eq}
use bridge_operator.Types.{interface_eq, vlan_interface_eq}

abbrev counting : String → NewInformerFunc String ℕ ℕ
counting t client resync n = (n, n + 1)

abbrev operations : List Operation
operations =
    informer_op "A"
    ∷ start_op
    ∷ informer_op "B"
    ∷ informer_op "A"
    ∷ start_op
    ∷ end_op
    ∷ shutdown_op
    ∷ informer_op "C"
    ∷ start_op
    ∷ []

abbrev options : List (SharedInformerOption ℕ)
options = in_namespace "ns" ∷ custom_resync_config (("A", pos 5) ∷ []) ∷ tweak_list none ∷ []

once_example :
    let s = reached counting "client" (pos 30) options 0 operations in
    DistinctKeys s.goroutines × All (λ (t, i). lookup t s.factory.informers ≡ some i) s.goroutines
once_example = operate_each-DistinctKeys counting "client" (pos 30) options 0 operations

abbrev counting_informers : ListWatch ℕ ℕ → String → ℤ → List String → ℕ → ℕ × ℕ
counting_informers calls t resync indexers n = (n, n + 1)

abbrev client : Client ℕ ℕ
client = record { list = λ r n. n; watch = λ r n. n + 1 }

wire_example :
    let (i, w1) =
      new_filtered_informer counting_informers bridge_configuration client
        (pos 30)
        ("namespace" ∷ [])
        none
        7 in
    let wiring = wire counting_informers client (pos 30) 7 in
    (wiring.listed ≡ i)
    × (wiring.synced ≡ i)
    × (wiring.handled ≡ i)
    × (wiring.state.goroutines ≡ (bridge_configuration, i) ∷ [])
    × (wiring.state.world ≡ w1)
wire_example = wire-one counting_informers client (pos 30) 7
