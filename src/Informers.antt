-- ===== src/Informers.antt =====
-- The factory of shared informers (pkg/client/informers/externalversions/factory.go), which
-- `Server.Run` (pkg/server/server.go) uses. A type of objects is its name, as `reflect.TypeOf`
-- tells types apart. Each method holds the lock of the factory while it works on it, so it runs as
-- a whole. The client, the options of a list call and the informers are parameters.
pub mod Invariant
pub mod Once
pub mod Shared
pub mod Typed
use bridge_operator.Prelude.{
  Bool, List, Option, String, [], false, if◌then◌else◌, int_eq, nat_eq, none, some, string_eq, true,
  ℕ, ℤ, ◌+◌, ◌-◌, ◌==◌, ◌∷◌,
}
use bridge_operator.GoMap.{GoMap, lookup, put}
use bridge_operator.Tracker.{name_eq}
use bridge_operator.Types.{interface_eq, vlan_interface_eq}

pub record SharedInformerFactory (C O I : Type 0) : Type 0 where
  pub client : C
  pub namespace : String
  pub tweak_list_options : Option (O → O)
  pub default_resync : ℤ
  pub custom_resync : GoMap String ℤ
  pub informers : GoMap String I
  pub started_informers : GoMap String Bool
  pub wait_group : ℕ
  pub shutting_down : Bool

pub data SharedInformerOption (O : Type 0) : Type 0 where
  custom_resync_config : GoMap String ℤ → SharedInformerOption O
  tweak_list : Option (O → O) → SharedInformerOption O
  in_namespace : String → SharedInformerOption O

-- The factory, the goroutines that it has started, newest first, each with the type of its
-- informer, how many of them have ended, and the world in which informers are made.
pub record FactoryState (C O I W : Type 0) : Type 0 where
  pub factory : SharedInformerFactory C O I
  pub goroutines : List (String × I)
  pub ended : ℕ
  pub world : W

abbrev pub NewInformerFunc : Type 0 → Type 0 → Type 0 → Type 0
NewInformerFunc C I W = C → ℤ → W → I × W

module _ {C O I : Type 0} where
  unfoldable pub with_custom_resync_config :
      GoMap String ℤ → SharedInformerFactory C O I → SharedInformerFactory C O I
  with_custom_resync_config [] f = f
  with_custom_resync_config ((k, v) ∷ config) f =
      with_custom_resync_config config (record f { custom_resync = put k v f.custom_resync })

  unfoldable pub with_tweak_list_options :
      Option (O → O) → SharedInformerFactory C O I → SharedInformerFactory C O I
  with_tweak_list_options tweak f = record f { tweak_list_options = tweak }

  unfoldable pub with_namespace : String → SharedInformerFactory C O I → SharedInformerFactory C O I
  with_namespace namespace f = record f { namespace = namespace }

  -- A `SharedInformerOption` is made by one of these.
  abbrev pub apply_options :
      List (SharedInformerOption O) → SharedInformerFactory C O I → SharedInformerFactory C O I
  apply_options [] f = f
  apply_options (custom_resync_config config ∷ options) f =
      apply_options options (with_custom_resync_config config f)
  apply_options (tweak_list tweak ∷ options) f =
      apply_options options (with_tweak_list_options tweak f)
  apply_options (in_namespace namespace ∷ options) f =
      apply_options options (with_namespace namespace f)

  -- `v1.NamespaceAll` is the empty string.
  unfoldable pub new_shared_informer_factory_with_options :
      C → ℤ → List (SharedInformerOption O) → SharedInformerFactory C O I
  new_shared_informer_factory_with_options client default_resync options =
      apply_options options (record {
        client = client;
        namespace = "";
        tweak_list_options = none;
        default_resync = default_resync;
        custom_resync = [];
        informers = [];
        started_informers = [];
        wait_group = 0;
        shutting_down = false;
      })

  unfoldable pub new_shared_informer_factory : C → ℤ → SharedInformerFactory C O I
  unfolding new_shared_informer_factory_with_options
  new_shared_informer_factory client default_resync =
      new_shared_informer_factory_with_options client default_resync []

  unfoldable pub new_filtered_shared_informer_factory :
      C → ℤ → String → Option (O → O) → SharedInformerFactory C O I
  unfolding new_shared_informer_factory_with_options
  new_filtered_shared_informer_factory client default_resync namespace tweak =
      new_shared_informer_factory_with_options client default_resync
        (in_namespace namespace ∷ tweak_list tweak ∷ [])

  -- `f.startedInformers[informerType]`
  unfoldable pub is_started : SharedInformerFactory C O I → String → Bool
  is_started f t = elim (lookup t f.started_informers) [ none ↦ false | some b ↦ b ]

  unfoldable pub resync_period : String → SharedInformerFactory C O I → ℤ
  resync_period t f = elim (lookup t f.custom_resync) [ none ↦ f.default_resync | some d ↦ d ]

module _ {C O I W : Type 0} where
  abbrev pub fresh : SharedInformerFactory C O I → W → FactoryState C O I W
  fresh f w = record { factory = f; goroutines = []; ended = 0; world = w }

  -- The body of the loop in `Start`.
  unfoldable pub start_one : String → I → FactoryState C O I W → FactoryState C O I W
  start_one t informer s = if is_started s.factory t then s else record s {
    factory = record s.factory {
      wait_group = s.factory.wait_group + 1;
      started_informers = put t true s.factory.started_informers;
    };
    goroutines = (t, informer) ∷ s.goroutines;
  }

  unfoldable pub start_all : GoMap String I → FactoryState C O I W → FactoryState C O I W
  start_all [] s = s
  start_all ((t, informer) ∷ rest) s = start_all rest (start_one t informer s)

  unfoldable pub start : FactoryState C O I W → FactoryState C O I W
  start s = if s.factory.shutting_down then s else start_all s.factory.informers s

  -- `Shutdown`, up to its wait for the group.
  unfoldable pub shutdown : FactoryState C O I W → FactoryState C O I W
  shutdown s = record s { factory = record s.factory { shutting_down = true } }

  -- `wg.Wait` lets `Shutdown` return.
  unfoldable pub can_return : FactoryState C O I W → Bool
  can_return s = s.factory.wait_group == 0

  -- `wg.Done`, when the run of an informer ends.
  unfoldable pub end_one : FactoryState C O I W → FactoryState C O I W
  end_one s = if s.factory.wait_group == 0 then s else record s {
    factory = record s.factory { wait_group = s.factory.wait_group - 1 };
    ended = s.ended + 1;
  }

  unfoldable pub informer_for :
      String → NewInformerFunc C I W → FactoryState C O I W → I × FactoryState C O I W
  informer_for t new_func s = elim (lookup t s.factory.informers) [
    | some informer ↦ (informer, s)
    | none ↦
        let (informer, w) = new_func s.factory.client (resync_period t s.factory) s.world in
        (
          informer,
          record s {
            factory = record s.factory { informers = put t informer s.factory.informers };
            world = w;
          },
        )
  ]

-- What a client of the factory, or the end of a goroutine, does to it.
pub data Operation : Type 0 where
  start_op shutdown_op end_op : Operation
  informer_op : String → Operation

module _ {C O I W : Type 0} (new_funcs : String → NewInformerFunc C I W) where
  unfoldable pub operate : Operation → FactoryState C O I W → FactoryState C O I W
  operate start_op s = start s
  operate shutdown_op s = shutdown s
  operate end_op s = end_one s
  operate (informer_op t) s = (informer_for t (new_funcs t) s).1

  unfoldable pub operate_each : List Operation → FactoryState C O I W → FactoryState C O I W
  operate_each [] s = s
  operate_each (o ∷ os) s = operate_each os (operate o s)

module _ {C O I : Type 0} (synced : I → Bool) where
  -- `synced` is what `cache.WaitForCacheSync` answers for one informer.
  abbrev wait_all : GoMap String I → SharedInformerFactory C O I → GoMap String Bool
  wait_all [] f = []
  wait_all ((t, informer) ∷ rest) f =
      let res = wait_all rest f in if is_started f t then (t, synced informer) ∷ res else res

  unfoldable pub wait_for_cache_sync : SharedInformerFactory C O I → GoMap String Bool
  wait_for_cache_sync f = wait_all f.informers f
