-- ===== src/Client.antt =====
-- What the generated clients (pkg/client/clientset/versioned) use of client-go: the builder of
-- requests and the actions of its fake as data, and the client and the fake as parameters.
pub mod Configurations
pub mod Informations
pub mod Fake
pub mod FakeConfigurations
pub mod FakeInformations
pub mod Meaning
pub mod Agreement
pub mod Clientset
use bridge_operator.Prelude.{Bool, Error, List, Option, String, none, some, ℕ, ◌%◌, ◌*◌, ◌^◌}

-- The values of options that the clients only hand on are of the type `O`. `TimeoutSeconds` is the
-- bit pattern of an int64.
pub record ListOptions (O : Type 0) : Type 0 where
  pub timeout_seconds : Option ℕ
  pub watch : Bool
  pub selection : O

pub data Params (O : Type 0) : Type 0 where
  options : O → Params O
  list_options : ListOptions O → Params O

pub data Body (O T : Type 0) : Type 0 where
  object : T → Body O T
  delete_options : O → Body O T
  patch_data : List ℕ → Body O T

-- A `rest.Request`, as the chain of calls that builds it.
pub data Request (O T : Type 0) : Type 0 where
  rest_get rest_post rest_put rest_delete : Request O T
  rest_patch : String → Request O T
  resource name : String → Request O T → Request O T
  sub_resource : List String → Request O T → Request O T
  versioned_params : Params O → Request O T → Request O T
  timeout : ℕ → Request O T → Request O T
  body : Body O T → Request O T → Request O T

-- `time.Duration(*opts.TimeoutSeconds) * time.Second`, a 64-bit product, or 0.
unfoldable pub timeout_of : {O : Type 0} → ListOptions O → ℕ
timeout_of opts = elim opts.timeout_seconds [
  | none ↦ 0
  | some seconds ↦ seconds * 1000000000 % 2 ^ 64
]

-- A `rest.Interface` for objects `T` and lists of them `L`: the object that `Into` fills in, or the
-- watch, with the error, and the server afterwards. `Into` fills in an object that is never nil.
pub record Rest (W O T L V : Type 0) : Type 0 where
  pub into : Request O T → W → T × Option Error × W
  pub into_list : Request O T → W → L × Option Error × W
  pub error : Request O T → W → Option Error × W
  pub watching : Request O T → W → V × Option Error × W
