-- ===== src/DeepCopy/Fresh.antt =====
-- A generated copy of a configuration
-- (api/bridgeoperator.k8s.cni.npwg.io/v1alpha1/zz_generated.deepcopy.go) has slices of its own.
use bridge_operator.Prelude.{List, Option, arith, length, none, refl, some, ℕ, ◌≡◌, ◌≤◌}
use bridge_operator.DeepCopy.{
  ConfigurationObject, Copier, Heap, configuration_deep_copy_into, spec_deep_copy_into,
  zero_interface, zero_vlan_interface,
}
use bridge_operator.DeepCopy.Copies.{ConfigurationIsIn, read_configuration, write_configuration}
use bridge_operator.Memory.{Slice}
use bridge_operator.Memory.Items.Behind.{
  Deep, IsBehind, contents-write_behind, copy_slice-IsBehind, length-copy_slice,
}
use bridge_operator.Memory.Items.Laws.{Copies}
use bridge_operator.Memory.Laws.{
  contents-copy_slice, contents-copy_slice_other, copy_slice-IsIn, copy_slice-IsIn_self,
}
use bridge_operator.Types.{EgressInterface, EgressVlanInterface, LabelSelector, ObjectMeta}

module _ {N S HN HS : Type 0} (meta_copier : Copier N ObjectMeta HN)
    (selector_copier : Copier S LabelSelector HS) where
  -- Its slices begin behind the memory.
  abbrev pub ConfigurationIsBehind : Heap HN HS → ConfigurationObject N S → Type 0
  ConfigurationIsBehind h config =
      IsBehind h.vlan_cells config.spec.egress_vlan_interfaces
      × IsBehind h.interface_cells config.spec.egress_interfaces

  abbrev pub HeapGrows : Heap HN HS → Heap HN HS → Type 0
  HeapGrows g h =
      (length g.vlan_cells ≤ length h.vlan_cells)
      × (length g.interface_cells ≤ length h.interface_cells)

  IsBehind-earlier :
      {A : Type 0} (m n : List A) (s : Option Slice)
      → length m ≤ length n
      → IsBehind n s
      → IsBehind m s
  IsBehind-earlier m n none le b = tt
  IsBehind-earlier m n (some s) le b = ground (arith, le, b)

  pub configuration-Deep :
      Deep
        (configuration_deep_copy_into meta_copier selector_copier)
        (ConfigurationIsIn meta_copier selector_copier)
        ConfigurationIsBehind
        HeapGrows
  unfolding configuration_deep_copy_into spec_deep_copy_into
  configuration-Deep = record {
    fresh = λ x h (meta, selector, vlans, interfaces). (
      copy_slice-IsBehind zero_vlan_interface x.spec.egress_vlan_interfaces h.vlan_cells vlans,
      copy_slice-IsBehind zero_interface x.spec.egress_interfaces h.interface_cells interfaces,
    );
    grows = λ x h (meta, selector, vlans, interfaces). (
      length-copy_slice zero_vlan_interface x.spec.egress_vlan_interfaces h.vlan_cells vlans,
      length-copy_slice zero_interface x.spec.egress_interfaces h.interface_cells interfaces,
    );
    earlier = λ g h x (vlans, interfaces) (vlans1, interfaces1). (
      IsBehind-earlier g.vlan_cells h.vlan_cells x.spec.egress_vlan_interfaces vlans vlans1,
      IsBehind-earlier g.interface_cells h.interface_cells x.spec.egress_interfaces interfaces
          interfaces1,
    );
  }

  -- Overwriting elements of the slices of such a configuration leaves those that were in the memory.
  pub read-write_behind :
      (c y : ConfigurationObject N S) (j : ℕ) (w : EgressVlanInterface) (l : ℕ)
      (u : EgressInterface) (h h1 : Heap HN HS)
      → ConfigurationIsBehind h c
      → ConfigurationIsIn meta_copier selector_copier h y
      → read_configuration meta_copier selector_copier
          (write_configuration meta_copier selector_copier (some c) j w l u h1)
          y
        ≡ read_configuration meta_copier selector_copier h1 y
  read-write_behind c y j w l u h h1 (vlans, interfaces) (meta, selector, vlans1, interfaces1) =
      rw
        (
          contents-write_behind c.spec.egress_vlan_interfaces y.spec.egress_vlan_interfaces j w
              h.vlan_cells h1.vlan_cells vlans vlans1,
          contents-write_behind c.spec.egress_interfaces y.spec.egress_interfaces l u
              h.interface_cells h1.interface_cells interfaces interfaces1,
        )
        refl

  -- What a copy stands for.
  pub configuration-Copies :
      Copies
        (configuration_deep_copy_into meta_copier selector_copier)
        (ConfigurationIsIn meta_copier selector_copier)
        (read_configuration meta_copier selector_copier)
  unfolding configuration_deep_copy_into spec_deep_copy_into
  configuration-Copies = record {
    copied = λ x h (meta, selector, vlans, interfaces).
        rw
          (
            meta_copier.copied x.object_meta h.metas meta,
            selector_copier.copied x.spec.node_selector h.selectors selector,
            contents-copy_slice zero_vlan_interface x.spec.egress_vlan_interfaces h.vlan_cells
                vlans,
            contents-copy_slice zero_interface x.spec.egress_interfaces h.interface_cells
                interfaces,
          )
          refl;
    copy_in = λ x h (meta, selector, vlans, interfaces). (
      meta_copier.copy_in x.object_meta h.metas meta,
      selector_copier.copy_in x.spec.node_selector h.selectors selector,
      copy_slice-IsIn_self zero_vlan_interface x.spec.egress_vlan_interfaces h.vlan_cells vlans,
      copy_slice-IsIn_self zero_interface x.spec.egress_interfaces h.interface_cells interfaces,
    );
    kept = λ x y h (meta, selector, vlans, interfaces) (meta1, selector1, vlans1, interfaces1).
        rw
          (
            meta_copier.kept x.object_meta y.object_meta h.metas meta meta1,
            selector_copier.kept x.spec.node_selector y.spec.node_selector h.selectors selector
                selector1,
            contents-copy_slice_other zero_vlan_interface x.spec.egress_vlan_interfaces
                y.spec.egress_vlan_interfaces h.vlan_cells vlans vlans1,
            contents-copy_slice_other zero_interface x.spec.egress_interfaces
                y.spec.egress_interfaces h.interface_cells interfaces interfaces1,
          )
          refl;
    stays_in = λ x y h (meta, selector, vlans, interfaces) (meta1, selector1, vlans1, interfaces1).
        (
          meta_copier.stays_in x.object_meta y.object_meta h.metas meta meta1,
          selector_copier.stays_in x.spec.node_selector y.spec.node_selector h.selectors selector
              selector1,
          copy_slice-IsIn zero_vlan_interface x.spec.egress_vlan_interfaces
              y.spec.egress_vlan_interfaces h.vlan_cells vlans vlans1,
          copy_slice-IsIn zero_interface x.spec.egress_interfaces y.spec.egress_interfaces
              h.interface_cells interfaces interfaces1,
        );
  }
