-- ===== src/Manifest/Init.antt =====
-- hfo2/src/manifest.rs: `Manifest::init`, on the root of a device tree. `max_vms` is `MAX_VMS`.
use hafnium_verification.Prelude.{
  ℕ, zero, suc, ◌+◌, Bool, true, false, ◌&&◌, ◌||◌, List, [], ◌∷◌, ◌++◌, ltb, ◌==◌, if◌then◌else◌,
  length,
}
use hafnium_verification.Text.{ascii, asciz}
use hafnium_verification.Outcome.{Outcome, got, fails, panicked, out_of_fuel}
use hafnium_verification.Fdt.Node.{FdtNode, find_child}
use hafnium_verification.Manifest.{
  no_hypervisor_fdt_node, not_compatible, reserved_vm_id, no_primary_vm, too_many_vms, Result, ok,
  err, panics, no_fuel, ◌>>=◌, moved_or, ManifestVm, generate_vm_node_name, vm_id_offset,
  primary_vm_id, read_from, contains, new,
}

-- `self.vms`, with how the method ends.
pub record Parsed : Type 0 where
  pub vms : List ManifestVm
  pub result : Result (Unit {0})

abbrev pub parsed : List ManifestVm → Result (Unit {0}) → Parsed
parsed vms r = record { vms = vms; result = r }

-- An error, a panic or lack of fuel ends the method, and leaves the VMs as they are.
abbrev pub or_return : {A : Type 0} → List ManifestVm → Result A → (A → Parsed) → Parsed
or_return vms (ok a) f = f a
or_return vms (err e) f = parsed vms (err e)
or_return vms panics f = parsed vms panics
or_return vms no_fuel f = parsed vms no_fuel

-- What is done with a child that is found, and what without one.
abbrev pub on_child :
    List ManifestVm → Outcome FdtNode (Unit {0}) → (FdtNode → Parsed) → Parsed → Parsed
on_child vms (got _ n) f absent = f n
on_child vms (fails _) f absent = absent
on_child vms panicked f absent = parsed vms panics
on_child vms out_of_fuel f absent = parsed vms no_fuel

-- What follows the loop.
abbrev pub finish : Bool → List ManifestVm → Parsed
finish found_primary_vm vms = parsed vms (if found_primary_vm then ok tt else err no_primary_vm)

-- `push` panics on a full array.
unfoldable pub push_vm : ℕ → List ManifestVm → ManifestVm → Result (List ManifestVm)
push_vm max_vms vms vm = if ltb (length vms) max_vms then ok (vms ++ (vm ∷ [])) else panics

abbrev pub refuse_child : Result (Unit {0}) → Outcome FdtNode (Unit {0}) → Result (Unit {0})
refuse_child absent (got _ n) = err reserved_vm_id
refuse_child absent (fails _) = absent
refuse_child absent panicked = panics
refuse_child absent out_of_fuel = no_fuel

module _ (mem : ℕ → ℕ) where
  -- The node of the VM with an id, if there is one.
  unfoldable pub find_vm : FdtNode → ℕ → Result (Outcome FdtNode (Unit {0}))
  find_vm hyp_node vm_id = do
    vm_name ← generate_vm_node_name vm_id
    ok (find_child mem vm_name hyp_node)

  -- `for vm_id in 0..HF_VM_ID_OFFSET`, with the rounds that are left.
  unfoldable pub check_reserved : ℕ → ℕ → FdtNode → Result (Unit {0})
  check_reserved zero vm_id hyp_node = ok tt
  check_reserved (suc rounds) vm_id hyp_node =
      find_vm hyp_node vm_id >>= refuse_child (check_reserved rounds (vm_id + 1) hyp_node)

  abbrev pub check_compatible : FdtNode → Result (Unit {0})
  check_compatible hyp_node = do
    compatible_list ← read_from mem hyp_node (asciz (ascii "compatible"))
    found ← contains compatible_list (asciz (ascii "hafnium,hafnium"))
    if found then ok tt else err not_compatible

  unfoldable pub hypervisor_node : FdtNode → Result FdtNode
  hypervisor_node fdt =
      moved_or no_hypervisor_fdt_node (find_child mem (asciz (ascii "hypervisor")) fdt)

  module _ (max_vms : ℕ) where
    -- `for i in 0..=MAX_VMS`, with the rounds that are left; the assertion panics.
    unfoldable pub read_vms : ℕ → ℕ → FdtNode → Bool → List ManifestVm → Parsed
    read_vms zero i hyp_node found_primary_vm vms = finish found_primary_vm vms
    read_vms (suc rounds) i hyp_node found_primary_vm vms =
        let vm_id = vm_id_offset + i in
        let is_primary = vm_id == primary_vm_id in
        or_return vms (find_vm hyp_node vm_id) (λ found.
          on_child vms found
            (λ vm_node. elim (i == max_vms) [
              | true ↦ parsed vms (err too_many_vms)
              | false ↦ elim (is_primary && found_primary_vm) [
                | true ↦ parsed vms panics
                | false ↦ or_return vms (new mem vm_node vm_id) (λ vm.
                    or_return vms (push_vm max_vms vms vm)
                      (read_vms rounds (i + 1) hyp_node (found_primary_vm || is_primary)))
              ]
            ])
            (finish found_primary_vm vms))

    unfoldable pub init : FdtNode → Parsed
    init fdt = or_return [] (hypervisor_node fdt) (λ hyp_node.
        or_return [] (check_compatible hyp_node) (λ _.
          or_return [] (check_reserved vm_id_offset 0 hyp_node)
            (λ _. read_vms (max_vms + 1) 0 hyp_node false [])))
