-- ===== src/DeepCopy/Lists.antt =====
-- The generated copies of lists of objects, and of objects behind the interface `runtime.Object`
-- (api/bridgeoperator.k8s.cni.npwg.io/v1alpha1/zz_generated.deepcopy.go).
use bridge_operator.Prelude.{List, Option, none, some}
use bridge_operator.DeepCopy.{
  ConfigurationObject, Copier, Heap, InformationObject, configuration_deep_copy,
  configuration_deep_copy_into, deep_copy_of, information_deep_copy, information_deep_copy_into,
}
use bridge_operator.Memory.{Slice}
use bridge_operator.Memory.Items.{copy_items}
use bridge_operator.Types.{LabelSelector, ListMeta, ObjectMeta, TypeMeta}

pub record ConfigurationListObject (L : Type 0) : Type 0 where
  pub type_meta : TypeMeta
  pub list_meta : L
  pub items : Option Slice

pub record InformationListObject (L : Type 0) : Type 0 where
  pub type_meta : TypeMeta
  pub list_meta : L
  pub items : Option Slice

-- The memory: that of single objects, of the metadata of lists, and of the items of lists.
pub record ListHeap (N S HN HS HL : Type 0) : Type 0 where
  pub heap : Heap HN HS
  pub list_metas : HL
  pub configuration_cells : List (ConfigurationObject N S)
  pub information_cells : List (InformationObject N)

-- A `runtime.Object` of the group.
pub data GroupObject (N S L : Type 0) : Type 0 where
  configuration_object : ConfigurationObject N S → GroupObject N S L
  configuration_list_object : ConfigurationListObject L → GroupObject N S L
  information_object : InformationObject N → GroupObject N S L
  information_list_object : InformationListObject L → GroupObject N S L

-- `if c := in.DeepCopy(); c != nil { return c }; return nil`
unfoldable pub to_object : {X O H : Type 0} → (X → O) → Option X × H → Option O × H
to_object wrap (none, h) = (none, h)
to_object wrap (some x, h) = (some (wrap x), h)

module _ {N S HN HS L HL : Type 0} (meta_copier : Copier N ObjectMeta HN)
    (selector_copier : Copier S LabelSelector HS) (list_copier : Copier L ListMeta HL)
    (zero_configuration : ConfigurationObject N S) (zero_information : InformationObject N) where
  unfoldable pub configuration_list_deep_copy_into :
      ConfigurationListObject L
      → ListHeap N S HN HS HL
      → ConfigurationListObject L × ListHeap N S HN HS HL
  configuration_list_deep_copy_into list h =
      let (meta, list_metas) = list_copier.deep_copy list.list_meta h.list_metas in
      let (items, heap, configuration_cells) =
        copy_items (configuration_deep_copy_into meta_copier selector_copier) zero_configuration
          list.items (h.heap, h.configuration_cells) in
      (
        record list { list_meta = meta; items = items },
        record h {
          heap = heap;
          list_metas = list_metas;
          configuration_cells = configuration_cells;
        },
      )

  unfoldable pub information_list_deep_copy_into :
      InformationListObject L
      → ListHeap N S HN HS HL
      → InformationListObject L × ListHeap N S HN HS HL
  information_list_deep_copy_into list h =
      let (meta, list_metas) = list_copier.deep_copy list.list_meta h.list_metas in
      let (items, heap, information_cells) =
        copy_items (information_deep_copy_into meta_copier selector_copier) zero_information
          list.items (h.heap, h.information_cells) in
      (
        record list { list_meta = meta; items = items },
        record h { heap = heap; list_metas = list_metas; information_cells = information_cells },
      )

  unfoldable pub configuration_list_deep_copy :
      Option (ConfigurationListObject L)
      → ListHeap N S HN HS HL
      → Option (ConfigurationListObject L) × ListHeap N S HN HS HL
  configuration_list_deep_copy = deep_copy_of configuration_list_deep_copy_into

  unfoldable pub information_list_deep_copy :
      Option (InformationListObject L)
      → ListHeap N S HN HS HL
      → Option (InformationListObject L) × ListHeap N S HN HS HL
  information_list_deep_copy = deep_copy_of information_list_deep_copy_into

  unfoldable pub configuration_deep_copy_object :
      Option (ConfigurationObject N S) → Heap HN HS → Option (GroupObject N S L) × Heap HN HS
  unfolding to_object
  configuration_deep_copy_object x h =
      to_object configuration_object (configuration_deep_copy meta_copier selector_copier x h)

  unfoldable pub information_deep_copy_object :
      Option (InformationObject N) → Heap HN HS → Option (GroupObject N S L) × Heap HN HS
  unfolding to_object
  information_deep_copy_object x h =
      to_object information_object (information_deep_copy meta_copier selector_copier x h)

  unfoldable pub configuration_list_deep_copy_object :
      Option (ConfigurationListObject L)
      → ListHeap N S HN HS HL
      → Option (GroupObject N S L) × ListHeap N S HN HS HL
  unfolding to_object
  configuration_list_deep_copy_object x h =
      to_object configuration_list_object (configuration_list_deep_copy x h)

  unfoldable pub information_list_deep_copy_object :
      Option (InformationListObject L)
      → ListHeap N S HN HS HL
      → Option (GroupObject N S L) × ListHeap N S HN HS HL
  unfolding to_object
  information_list_deep_copy_object x h =
      to_object information_list_object (information_list_deep_copy x h)
