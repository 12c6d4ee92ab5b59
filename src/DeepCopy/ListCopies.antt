-- ===== src/DeepCopy/ListCopies.antt =====
-- A generated copy of a list (api/bridgeoperator.k8s.cni.npwg.io/v1alpha1/zz_generated.deepcopy.go)
-- holds what the list holds.
use bridge_operator.Prelude.{
  All, All-map, List, Option, [], ap, map, none, refl, some, true, ℕ, ◌∙◌, ◌∷◌, ◌≡◌,
}
use bridge_operator.DeepCopy.{
  ConfigurationObject, Copier, InformationObject, configuration_deep_copy_into, deep_copy_of,
}
use bridge_operator.DeepCopy.Copies.{
  AtPointer, ConfigurationIsIn, SpecValue, map_pointer, read_configuration, write_configuration,
}
use bridge_operator.DeepCopy.Fresh.{configuration-Copies, configuration-Deep, read-write_behind}
use bridge_operator.DeepCopy.Lists.{
  ConfigurationListObject, ListHeap, configuration_list_deep_copy,
  configuration_list_deep_copy_into,
}
use bridge_operator.Memory.{IsIn, Slice, contents, write_at}
use bridge_operator.Memory.Items.{copy_items}
use bridge_operator.Memory.Items.Behind.{copy_items-Behind}
use bridge_operator.Memory.Items.Laws.{Copies, copy_items-copies, items, map_items}
use bridge_operator.Types.{
  EgressInterface, EgressVlanInterface, LabelSelector, ListMeta, ObjectMeta, TypeMeta,
}

map-agree :
    {X V : Type 0} {P : X → Type 0} {f g : X → V} (xs : List X)
    → ((x : X) → P x → f x ≡ g x)
    → All P xs
    → map f xs ≡ map g xs
map-agree [] same all = refl
map-agree (x ∷ xs) same all = rw (same x all.0, map-agree xs same all.1) refl

map_items-agree :
    {X V : Type 0} {P : X → Type 0} {f g : X → V} (u : Option Slice) (m : List X)
    → ((x : X) → P x → f x ≡ g x)
    → All P (items m u)
    → map_items f (contents m u) ≡ map_items g (contents m u)
map_items-agree none m same all = refl
map_items-agree (some u) m same all = ap some (map-agree (items m (some u)) same all)

-- The copied items stand for what the items stand for, and so do those of another slice that was in
-- the memory, also once an item of the copy is overwritten.
pub copy_items-both :
    {X H V : Type 0} {into : X → H → X × H} {In : H → X → Type 0} {read : H → X → V}
    → Copies into In read
    → (z : X) (s u : Option Slice) (i : ℕ) (v : X) (h : H) (m : List X) → IsIn m s
    → All (In h) (items m s)
    → IsIn m u
    → All (In h) (items m u)
    → let (t, h1, m1) = copy_items into z s (h, m) in
      (map_items (read h1) (contents m1 t) ≡ map_items (read h) (contents m s))
      × (map_items (read h1) (contents (write_at t i v m1) u) ≡ map_items (read h) (contents m u))
copy_items-both {into = into} {read = read} laws z s u i v h m at_s all_s at_u all_u =
    let h1 = (copy_items into z s (h, m)).1 in
    let (same, kept, cells_kept) = copy_items-copies laws z s h m at_s all_s in
    (same, ap (λ c. map_items (read h1) c) (cells_kept u i v at_u) ∙ map_items-agree u m kept all_u)

module _ {N S HN HS L HL : Type 0} (meta_copier : Copier N ObjectMeta HN)
    (selector_copier : Copier S LabelSelector HS) (list_copier : Copier L ListMeta HL)
    (zero_configuration : ConfigurationObject N S) (zero_information : InformationObject N) where
  -- What a list of configurations stands for.
  abbrev pub read_configuration_list :
      ListHeap N S HN HS HL
      → ConfigurationListObject L
      → TypeMeta
        × ListMeta
        × Option (List (TypeMeta × ObjectMeta × SpecValue meta_copier selector_copier))
  read_configuration_list h list = (
    list.type_meta,
    list_copier.read h.list_metas list.list_meta,
    map_items (read_configuration meta_copier selector_copier h.heap)
        (contents h.configuration_cells list.items),
  )

  -- All that it and its items refer to is in the memory.
  abbrev pub ConfigurationListIsIn : ListHeap N S HN HS HL → ConfigurationListObject L → Type 0
  ConfigurationListIsIn h list =
      (list_copier.is_in h.list_metas list.list_meta ≡ true)
      × IsIn h.configuration_cells list.items
      × All (ConfigurationIsIn meta_copier selector_copier h.heap)
          (items h.configuration_cells list.items)

  -- `c.Items[i] = v`
  abbrev pub write_configuration_list :
      Option (ConfigurationListObject L)
      → ℕ
      → ConfigurationObject N S
      → ListHeap N S HN HS HL
      → ListHeap N S HN HS HL
  write_configuration_list none i v h = h
  write_configuration_list (some list) i v h = record h {
    configuration_cells = write_at list.items i v h.configuration_cells;
  }

  -- The items of a list.
  abbrev pub items_of :
      Option (ConfigurationListObject L) → ListHeap N S HN HS HL → List (ConfigurationObject N S)
  items_of none h = []
  items_of (some list) h = items h.configuration_cells list.items

  -- `c.Spec.EgressVlanInterfaces[j] = w; c.Spec.EgressInterfaces[l] = u`
  abbrev pub write_nested :
      ConfigurationObject N S
      → ℕ
      → EgressVlanInterface
      → ℕ
      → EgressInterface
      → ListHeap N S HN HS HL
      → ListHeap N S HN HS HL
  write_nested c j w l u h = record h {
    heap = write_configuration meta_copier selector_copier (some c) j w l u h.heap;
  }

  -- The items of a list in memory, also once a copied item is written to.
  nested-kept :
      (x y : ConfigurationListObject L) (i : ℕ) (v : ConfigurationObject N S)
      (h : ListHeap N S HN HS HL)
      → ConfigurationListIsIn h x
      → ConfigurationListIsIn h y
      → let (q, h1) =
          configuration_list_deep_copy_into meta_copier selector_copier list_copier
            zero_configuration zero_information x h in
        All
          (λ c.
            (j : ℕ) (w : EgressVlanInterface) (l : ℕ) (u : EgressInterface)
            → read_configuration_list
                (write_nested c j w l u (write_configuration_list (some q) i v h1))
                y
              ≡ read_configuration_list h y)
          (items h1.configuration_cells q.items)
  unfolding configuration_list_deep_copy_into
  nested-kept x y i v h (meta, slice, all) (meta1, slice1, all1) =
      let laws = configuration-Copies meta_copier selector_copier in
      let copied =
        copy_items (configuration_deep_copy_into meta_copier selector_copier) zero_configuration
          x.items (h.heap, h.configuration_cells) in
      let (same, kept, cells_kept) =
        copy_items-copies laws zero_configuration x.items h.heap h.configuration_cells slice all in
      All-map _ _ (items copied.2 copied.0)
        (λ c behind j w l u.
          let h2 = write_configuration meta_copier selector_copier (some c) j w l u copied.1 in
          let items_kept =
            ap (map_items (read_configuration meta_copier selector_copier h2))
              (cells_kept y.items i v slice1)
            ∙ map_items-agree y.items h.configuration_cells
                (λ z at_z.
                  read-write_behind meta_copier selector_copier c z j w l u h.heap copied.1 behind
                    at_z
                  ∙ kept z at_z)
                all1 in
          rw (list_copier.kept x.list_meta y.list_meta h.list_metas meta meta1, items_kept) refl)
        (copy_items-Behind laws (configuration-Deep meta_copier selector_copier) zero_configuration
          x.items h.heap h.configuration_cells slice all)

  -- `DeepCopy` of a list of configurations that is in memory with all its items stands for what the
  -- original stands for, item by item and in order, with nil for nil; and any such list that was in
  -- memory, such as the original, stands for what it stood for, also once an item of the copy is
  -- overwritten, and once elements of both slices of an item of the copy are overwritten as well.
  pub configuration_list_deep_copy-copies :
      (p : Option (ConfigurationListObject L)) (y : ConfigurationListObject L) (i : ℕ)
      (v : ConfigurationObject N S) (h : ListHeap N S HN HS HL)
      → AtPointer (ConfigurationListIsIn h) p
      → ConfigurationListIsIn h y
      → let (q, h1) =
          configuration_list_deep_copy meta_copier selector_copier list_copier zero_configuration
            zero_information p h in
        (map_pointer (read_configuration_list h1) q ≡ map_pointer (read_configuration_list h) p)
        × (read_configuration_list (write_configuration_list q i v h1) y
            ≡ read_configuration_list h y)
        × All
            (λ c.
              (j : ℕ) (w : EgressVlanInterface) (l : ℕ) (u : EgressInterface)
              → read_configuration_list
                  (write_nested c j w l u (write_configuration_list q i v h1))
                  y
                ≡ read_configuration_list h y)
            (items_of q h1)
  unfolding configuration_list_deep_copy configuration_list_deep_copy_into deep_copy_of
  configuration_list_deep_copy-copies none y i v h at_p at_y = (refl, refl, tt)
  configuration_list_deep_copy-copies (some x) y i v h (meta, slice, all) (meta1, slice1, all1) =
      let (same, kept) =
        copy_items-both (configuration-Copies meta_copier selector_copier) zero_configuration
          x.items y.items i v h.heap h.configuration_cells slice all slice1 all1 in
      (
        rw (list_copier.copied x.list_meta h.list_metas meta, same) refl,
        rw (list_copier.kept x.list_meta y.list_meta h.list_metas meta meta1, kept) refl,
        nested-kept x y i v h (meta, slice, all) (meta1, slice1, all1),
      )
