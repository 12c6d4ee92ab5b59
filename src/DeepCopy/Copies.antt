-- ===== src/DeepCopy/Copies.antt =====
-- A generated copy (api/bridgeoperator.k8s.cni.npwg.io/v1alpha1/zz_generated.deepcopy.go) holds what
-- the original holds, and shares no cell with what was in memory.
use bridge_operator.Prelude.{Bool, List, Option, String, none, refl, some, true, ℕ, ◌≡◌}
use bridge_operator.DeepCopy.{
  ConfigurationObject, Copier, Heap, InformationObject, SpecObject, configuration_deep_copy,
  configuration_deep_copy_into, deep_copy_of, information_deep_copy, information_deep_copy_into,
  spec_deep_copy_into, status_deep_copy_into, zero_interface, zero_port, zero_vlan_interface,
}
use bridge_operator.Memory.{IsIn, contents, write_at}
use bridge_operator.Memory.Laws.{contents-copy_slice, contents-write_at}
use bridge_operator.Types.{
  BridgeInformationPortStatus, EgressInterface, EgressVlanInterface, LabelSelector, ObjectMeta,
  TypeMeta,
}

abbrev pub map_pointer {ℓ κ} : {A : Type ℓ} {B : Type κ} → (A → B) → Option A → Option B
map_pointer f none = none
map_pointer f (some x) = some (f x)

abbrev pub AtPointer : {A : Type 0} → (A → Type 0) → Option A → Type 0
AtPointer P none = Unit {0}
AtPointer P (some x) = P x

module _ {N S HN HS : Type 0} (meta_copier : Copier N ObjectMeta HN)
    (selector_copier : Copier S LabelSelector HS) where
  -- What a structure stands for, with a nil slice told from an empty one.
  abbrev pub SpecValue : Type 0
  SpecValue = LabelSelector × Option (List EgressVlanInterface) × Option (List EgressInterface)

  abbrev pub read_spec : Heap HN HS → SpecObject S → SpecValue
  read_spec h spec = (
    selector_copier.read h.selectors spec.node_selector,
    contents h.vlan_cells spec.egress_vlan_interfaces,
    contents h.interface_cells spec.egress_interfaces,
  )

  abbrev pub read_configuration :
      Heap HN HS → ConfigurationObject N S → TypeMeta × ObjectMeta × SpecValue
  read_configuration h config =
      (config.type_meta, meta_copier.read h.metas config.object_meta, read_spec h config.spec)

  -- All that it refers to is in the memory.
  abbrev pub ConfigurationIsIn : Heap HN HS → ConfigurationObject N S → Type 0
  ConfigurationIsIn h config =
      (meta_copier.is_in h.metas config.object_meta ≡ true)
      × (selector_copier.is_in h.selectors config.spec.node_selector ≡ true)
      × IsIn h.vlan_cells config.spec.egress_vlan_interfaces
      × IsIn h.interface_cells config.spec.egress_interfaces

  -- `c.Spec.EgressVlanInterfaces[i] = v; c.Spec.EgressInterfaces[j] = u`
  abbrev pub write_configuration :
      Option (ConfigurationObject N S)
      → ℕ
      → EgressVlanInterface
      → ℕ
      → EgressInterface
      → Heap HN HS
      → Heap HN HS
  write_configuration none i v j u h = h
  write_configuration (some config) i v j u h = record h {
    vlan_cells = write_at config.spec.egress_vlan_interfaces i v h.vlan_cells;
    interface_cells = write_at config.spec.egress_interfaces j u h.interface_cells;
  }

  -- `DeepCopy` of a configuration that is in memory stands for what the original stands for, with nil
  -- for nil; and any configuration that was in memory, such as the original, stands for what it stood
  -- for, also once an element of each slice of the copy is overwritten.
  pub configuration_deep_copy-copies :
      (p : Option (ConfigurationObject N S)) (y : ConfigurationObject N S) (i : ℕ)
      (v : EgressVlanInterface) (j : ℕ) (u : EgressInterface) (h : Heap HN HS)
      → AtPointer (ConfigurationIsIn h) p
      → ConfigurationIsIn h y
      → let (q, h1) = configuration_deep_copy meta_copier selector_copier p h in
        (map_pointer (read_configuration h1) q ≡ map_pointer (read_configuration h) p)
        × (read_configuration (write_configuration q i v j u h1) y ≡ read_configuration h y)
  unfolding configuration_deep_copy deep_copy_of configuration_deep_copy_into spec_deep_copy_into
  configuration_deep_copy-copies none y i v j u h at_p at_y = (refl, refl)
  configuration_deep_copy-copies (some x) y i v j u h (meta, selector, vlans, interfaces)
        (meta1, selector1, vlans1, interfaces1) =
      (
        rw
            (
              meta_copier.copied x.object_meta h.metas meta,
              selector_copier.copied x.spec.node_selector h.selectors selector,
              contents-copy_slice zero_vlan_interface x.spec.egress_vlan_interfaces h.vlan_cells
                  vlans,
              contents-copy_slice zero_interface x.spec.egress_interfaces h.interface_cells
                  interfaces,
            )
            refl,
        rw
            (
              meta_copier.kept x.object_meta y.object_meta h.metas meta meta1,
              selector_copier.kept x.spec.node_selector y.spec.node_selector h.selectors selector
                  selector1,
              contents-write_at zero_vlan_interface x.spec.egress_vlan_interfaces
                  y.spec.egress_vlan_interfaces i v h.vlan_cells vlans vlans1,
              contents-write_at zero_interface x.spec.egress_interfaces y.spec.egress_interfaces j u
                  h.interface_cells interfaces interfaces1,
            )
            refl,
      )

  abbrev pub read_information :
      Heap HN HS
      → InformationObject N
      → TypeMeta × ObjectMeta × String × String × Bool × Option (List BridgeInformationPortStatus)
  read_information h info = (
    info.type_meta,
    meta_copier.read h.metas info.object_meta,
    info.status.name,
    info.status.node,
    info.status.managed,
    contents h.port_cells info.status.ports,
  )

  abbrev pub InformationIsIn : Heap HN HS → InformationObject N → Type 0
  InformationIsIn h info =
      (meta_copier.is_in h.metas info.object_meta ≡ true) × IsIn h.port_cells info.status.ports

  -- `c.Status.Ports[i] = v`
  abbrev pub write_information :
      Option (InformationObject N) → ℕ → BridgeInformationPortStatus → Heap HN HS → Heap HN HS
  write_information none i v h = h
  write_information (some info) i v h = record h {
    port_cells = write_at info.status.ports i v h.port_cells;
  }

  -- `DeepCopy` of an object that reports a bridge, and that is in memory, stands for what the original
  -- stands for, with nil for nil; and any such object that was in memory stands for what it stood for,
  -- also once an element of the ports of the copy is overwritten.
  pub information_deep_copy-copies :
      (p : Option (InformationObject N)) (y : InformationObject N) (i : ℕ)
      (v : BridgeInformationPortStatus) (h : Heap HN HS)
      → AtPointer (InformationIsIn h) p
      → InformationIsIn h y
      → let (q, h1) = information_deep_copy meta_copier selector_copier p h in
        (map_pointer (read_information h1) q ≡ map_pointer (read_information h) p)
        × (read_information (write_information q i v h1) y ≡ read_information h y)
  unfolding information_deep_copy deep_copy_of information_deep_copy_into status_deep_copy_into
  information_deep_copy-copies none y i v h at_p at_y = (refl, refl)
  information_deep_copy-copies (some x) y i v h (meta, ports) (meta1, ports1) = (
    rw
        (
          meta_copier.copied x.object_meta h.metas meta,
          contents-copy_slice zero_port x.status.ports h.port_cells ports,
        )
        refl,
    rw
        (
          meta_copier.kept x.object_meta y.object_meta h.metas meta meta1,
          contents-write_at zero_port x.status.ports y.status.ports i v h.port_cells ports ports1,
        )
        refl,
  )
