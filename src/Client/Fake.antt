-- ===== src/Client/Fake.antt =====
-- What the fakes of the generated clients use of client-go's `testing`: actions as data, and the
-- tracker of objects behind them as a parameter.
use bridge_operator.Prelude.{Bool, Error, List, Option, String, none, some, ℕ}
use bridge_operator.Client.{ListOptions}
use bridge_operator.Informers.Typed.{GroupVersionResource}
use bridge_operator.Types.{ObjectMeta}

-- What the functions `NewRoot...Action` make. The kind of a list is left out.
pub data Action (O T : Type 0) : Type 0 where
  root_get : GroupVersionResource → String → Action O T
  root_list root_watch root_delete_collection : GroupVersionResource → ListOptions O → Action O T
  root_create root_update : GroupVersionResource → T → Action O T
  root_update_subresource : GroupVersionResource → String → T → Action O T
  root_delete : GroupVersionResource → String → O → Action O T
  root_patch : GroupVersionResource → String → String → List ℕ → List String → Action O T

-- A `runtime.Object`: an object, a list of objects, or an object of another type.
pub data RuntimeObject (T L : Type 0) : Type 0 where
  single : T → RuntimeObject T L
  many : L → RuntimeObject T L
  foreign : RuntimeObject T L

-- A `testing.Fake`: the object that the reactors answer with, which may be nil, the error, and the
-- tracker afterwards. The object to answer with by default is left out.
pub record Fake (W O T L V S : Type 0) : Type 0 where
  pub invokes : Action O T → W → Option (RuntimeObject T L) × Option Error × W
  pub invokes_watch : Action O T → W → V × Option Error × W
  -- The first result of `ExtractFromListOptions`.
  pub extract_label : ListOptions O → Option S
  pub everything : S
  pub matches : S → ObjectMeta → Bool

module _ {W T L : Type 0} where
  -- `if obj == nil { return nil, err }; return obj.(*T), err`: none where the assertion panics.
  unfoldable pub answer :
      Option (RuntimeObject T L) × Option Error × W → Option (Option T × Option Error × W)
  answer (none, e, w) = some (none, e, w)
  answer (some (single o), e, w) = some (some o, e, w)
  answer (some (many l), e, w) = none
  answer (some foreign, e, w) = none

  -- The same of a list, which goes on with it.
  unfoldable pub answer_list :
      (L → L) → Option (RuntimeObject T L) × Option Error × W → Option (Option L × Option Error × W)
  answer_list f (none, e, w) = some (none, e, w)
  answer_list f (some (many l), e, w) = some (some (f l), e, w)
  answer_list f (some (single o), e, w) = none
  answer_list f (some foreign, e, w) = none

-- `if label == nil { label = labels.Everything() }`
unfoldable pub label_of : {S : Type 0} → Option S → S → S
label_of none everything = everything
label_of (some l) everything = l
