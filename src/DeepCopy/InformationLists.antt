-- ===== src/DeepCopy/InformationLists.antt =====
-- A generated copy of a list of the objects that report bridges
-- (api/bridgeoperator.k8s.cni.npwg.io/v1alpha1/zz_generated.deepcopy.go) holds what the list holds.
use bridge_operator.DeepCopy.ListCopies.{copy_items-both}
use bridge_operator.Prelude.{All, Bool, List, Option, String, none, refl, some, true, ℕ, ◌≡◌}
use bridge_operator.DeepCopy.{
  ConfigurationObject, Copier, InformationObject, deep_copy_of, information_deep_copy_into,
  status_deep_copy_into, zero_port,
}
use bridge_operator.DeepCopy.Copies.{AtPointer, InformationIsIn, map_pointer, read_information}
use bridge_operator.DeepCopy.Lists.{
  InformationListObject, ListHeap, information_list_deep_copy, information_list_deep_copy_into,
}
use bridge_operator.Memory.{IsIn, contents, write_at}
use bridge_operator.Memory.Items.Laws.{Copies, items, map_items}
use bridge_operator.Memory.Laws.{
  contents-copy_slice, contents-copy_slice_other, copy_slice-IsIn, copy_slice-IsIn_self,
}
use bridge_operator.Types.{
  BridgeInformationPortStatus, LabelSelector, ListMeta, ObjectMeta, TypeMeta,
}

module _ {N S HN HS : Type 0} (meta_copier : Copier N ObjectMeta HN)
    (selector_copier : Copier S LabelSelector HS) where
  information-Copies :
      Copies
        (information_deep_copy_into meta_copier selector_copier)
        (InformationIsIn meta_copier selector_copier)
        (read_information meta_copier selector_copier)
  unfolding information_deep_copy_into status_deep_copy_into
  information-Copies = record {
    copied = λ x h (meta, ports).
        rw
          (
            meta_copier.copied x.object_meta h.metas meta,
            contents-copy_slice zero_port x.status.ports h.port_cells ports,
          )
          refl;
    copy_in = λ x h (meta, ports). (
      meta_copier.copy_in x.object_meta h.metas meta,
      copy_slice-IsIn_self zero_port x.status.ports h.port_cells ports,
    );
    kept = λ x y h (meta, ports) (meta1, ports1).
        rw
          (
            meta_copier.kept x.object_meta y.object_meta h.metas meta meta1,
            contents-copy_slice_other zero_port x.status.ports y.status.ports h.port_cells ports
                ports1,
          )
          refl;
    stays_in = λ x y h (meta, ports) (meta1, ports1). (
      meta_copier.stays_in x.object_meta y.object_meta h.metas meta meta1,
      copy_slice-IsIn zero_port x.status.ports y.status.ports h.port_cells ports ports1,
    );
  }

module _ {N S HN HS L HL : Type 0} (meta_copier : Copier N ObjectMeta HN)
    (selector_copier : Copier S LabelSelector HS) (list_copier : Copier L ListMeta HL)
    (zero_configuration : ConfigurationObject N S) (zero_information : InformationObject N) where
  -- What a list of objects that report bridges stands for.
  abbrev pub read_information_list :
      ListHeap N S HN HS HL
      → InformationListObject L
      → TypeMeta
        × ListMeta
        × Option (
            List (
              TypeMeta
              × ObjectMeta
              × String
              × String
              × Bool
              × Option (List BridgeInformationPortStatus)))
  read_information_list h list = (
    list.type_meta,
    list_copier.read h.list_metas list.list_meta,
    map_items (read_information meta_copier selector_copier h.heap)
        (contents h.information_cells list.items),
  )

  -- All that it and its items refer to is in the memory.
  abbrev pub InformationListIsIn : ListHeap N S HN HS HL → InformationListObject L → Type 0
  InformationListIsIn h list =
      (list_copier.is_in h.list_metas list.list_meta ≡ true)
      × IsIn h.information_cells list.items
      × All (InformationIsIn meta_copier selector_copier h.heap)
          (items h.information_cells list.items)

  -- `c.Items[i] = v`
  abbrev pub write_information_list :
      Option (InformationListObject L)
      → ℕ
      → InformationObject N
      → ListHeap N S HN HS HL
      → ListHeap N S HN HS HL
  write_information_list none i v h = h
  write_information_list (some list) i v h = record h {
    information_cells = write_at list.items i v h.information_cells;
  }

  -- `DeepCopy` of a list of objects that report bridges that is in memory with all its items stands for what the
  -- original stands for, item by item and in order, with nil for nil; and any such list that was in
  -- memory, such as the original, stands for what it stood for, also once an item of the copy is
  -- overwritten.
  pub information_list_deep_copy-copies :
      (p : Option (InformationListObject L)) (y : InformationListObject L) (i : ℕ)
      (v : InformationObject N) (h : ListHeap N S HN HS HL)
      → AtPointer (InformationListIsIn h) p
      → InformationListIsIn h y
      → let (q, h1) =
          information_list_deep_copy meta_copier selector_copier list_copier zero_configuration
            zero_information p h in
        (map_pointer (read_information_list h1) q ≡ map_pointer (read_information_list h) p)
        × (read_information_list (write_information_list q i v h1) y ≡ read_information_list h y)
  unfolding information_list_deep_copy information_list_deep_copy_into deep_copy_of
  information_list_deep_copy-copies none y i v h at_p at_y = (refl, refl)
  information_list_deep_copy-copies (some x) y i v h (meta, slice, all) (meta1, slice1, all1) =
      let (same, kept) =
        copy_items-both (information-Copies meta_copier selector_copier) zero_information x.items
          y.items i v h.heap h.information_cells slice all slice1 all1 in
      (
        rw (list_copier.copied x.list_meta h.list_metas meta, same) refl,
        rw (list_copier.kept x.list_meta y.list_meta h.list_metas meta meta1, kept) refl,
      )
