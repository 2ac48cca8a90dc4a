-- ===== src/Manifest/Accepts.antt =====
-- The device trees that `Manifest::init` accepts.
use mathlib.Core.List.{append-nil, append_assoc}
use hafnium_verification.Prelude.{
  ℕ, zero, suc, ◌≡◌, refl, sym, subst, ◌∙◌, ◌+◌, ◌≤◌, ◌<◌, ◌⊎◌, inl, inr, true, false, ◌&&◌, ◌||◌,
  List, [], ◌∷◌, ◌++◌, ltb, ◌==◌, length, length-append, arith, Bool-cases,
}
use hafnium_verification.Text.{ascii, asciz}
use hafnium_verification.Outcome.{Outcome, got, fails, panicked, out_of_fuel}
use hafnium_verification.Fdt.Node.{FdtNode, find_child}
use hafnium_verification.Manifest.{
  too_many_vms, Result, ok, err, panics, no_fuel, ManifestVm, vm_id_offset, primary_vm_id, new,
}
use hafnium_verification.Manifest.Init.{
  Parsed, parsed, or_return, on_child, find_vm, push_vm, finish, read_vms, check_compatible,
}

module _ (mem : ℕ → ℕ) where
  -- The node of the VM with an id stands in the tree, and reads as the VM.
  abbrev pub IsVm : FdtNode → ℕ → ManifestVm → Type 0
  IsVm hyp_node vm_id vm =
      (n : FdtNode) × (find_vm mem hyp_node vm_id ≡ ok (got tt n)) × (new mem n vm_id ≡ ok vm)

  abbrev pub Lacks : FdtNode → ℕ → Type 0
  Lacks hyp_node vm_id = (n : FdtNode) × (find_vm mem hyp_node vm_id ≡ ok (fails n))

  -- The VMs have the ids from `i + 1` on, and no other VM follows.
  abbrev pub VmsFrom : FdtNode → ℕ → List ManifestVm → Type 0
  VmsFrom hyp_node i [] = Lacks hyp_node (vm_id_offset + i)
  VmsFrom hyp_node i (vm ∷ vms) = IsVm hyp_node (vm_id_offset + i) vm × VmsFrom hyp_node (i + 1) vms

  -- What `Manifest::init` asks of a tree for these VMs: a hypervisor node that is compatible, no VM
  -- with the reserved id, the VMs with the ids from 1 on, at least one and not too many.
  pub record Accepts (max_vms : ℕ) (fdt : FdtNode) (vms : List ManifestVm) : Type 0 where
    pub hyp_node : FdtNode
    pub finds_hypervisor : find_child mem (asciz (ascii "hypervisor")) fdt ≡ got tt hyp_node
    pub compatible : check_compatible mem hyp_node ≡ ok tt
    pub unreserved : Lacks hyp_node 0
    pub describes : VmsFrom hyp_node 0 vms
    pub some_vm : 1 ≤ length vms
    pub few : length vms ≤ max_vms

-- A step that does not end the method returned a value.
pub or_return-ok :
    {A : Type 0} (vms : List ManifestVm) (r : Result A) (f : A → Parsed)
    → (or_return vms r f).result ≡ ok tt
    → (a : A) × (r ≡ ok a) × (or_return vms r f ≡ f a)
or_return-ok vms (ok a) f h = (a, refl, refl)
or_return-ok vms (err e) f h = absurd cc
or_return-ok vms panics f h = absurd cc
or_return-ok vms no_fuel f h = absurd cc

on_child-ok :
    (vms : List ManifestVm) (o : Outcome FdtNode (Unit {0})) (f : FdtNode → Parsed)
    (absent : Parsed)
    → (on_child vms o f absent).result ≡ ok tt
    → ((n : FdtNode) × (o ≡ got tt n) × (on_child vms o f absent ≡ f n))
      ⊎ ((n : FdtNode) × (o ≡ fails n) × (on_child vms o f absent ≡ absent))
on_child-ok vms (got u n) f absent h = inl (n, refl, refl)
on_child-ok vms (fails n) f absent h = inr (n, refl, refl)
on_child-ok vms panicked f absent h = absurd cc
on_child-ok vms out_of_fuel f absent h = absurd cc

push_vm-ok :
    (max_vms : ℕ) (vms : List ManifestVm) (vm : ManifestVm) (more : List ManifestVm)
    → push_vm max_vms vms vm ≡ ok more
    → more ≡ vms ++ (vm ∷ [])
unfolding push_vm
push_vm-ok max_vms vms vm more h = elim (Bool-cases (ltb (length vms) max_vms)) [
  | inl e ↦ let g = rw (push_vm, e) at h in cc
  | inr e ↦ let g = rw (push_vm, e) at h in absurd cc
]

-- The loop has read `vms`, and goes on to `final`.
abbrev pub Goes : (ℕ → ℕ) → ℕ → FdtNode → ℕ → List ManifestVm → Parsed → Type 0
Goes mem max_vms hyp_node i vms final =
    (more : List ManifestVm) × (final.vms ≡ vms ++ more)
    × VmsFrom mem hyp_node i more
    × (1 ≤ i + length more)
    × (i + length more ≤ max_vms)

module _ {A : Type 0} (xs : List A) where
  pushed-append :
      (rest : List A) (x : A) (ys : List A) → ys ≡ xs ++ (x ∷ []) → ys ++ rest ≡ xs ++ (x ∷ rest)
  pushed-append rest x ys e = rw (e, append_assoc) refl

  pushed-length : (x : A) (ys : List A) → ys ≡ xs ++ (x ∷ []) → length ys ≡ length xs + 1
  pushed-length x ys e = rw (e, length-append) refl

-- Only the first VM is the primary, and it is marked when it is read.
pub marks : (i : ℕ) → (ltb 0 i || (vm_id_offset + i == primary_vm_id)) ≡ ltb 0 (i + 1)
marks i = ground arith

pub marks_once : (i : ℕ) → ((vm_id_offset + i == primary_vm_id) && ltb 0 i) ≡ false
marks_once i = ground arith

pub finish-ok : (i : ℕ) (vms : List ManifestVm) → (finish (ltb 0 i) vms).result ≡ ok tt → 0 < i
finish-ok zero vms h = absurd cc
finish-ok (suc i) vms h = omega arith

module _ (mem : ℕ → ℕ) (max_vms : ℕ) (hyp_node : FdtNode) where
  abbrev Final : ℕ → ℕ → List ManifestVm → Parsed
  Final rounds i vms = read_vms mem max_vms rounds i hyp_node (ltb 0 i) vms

  stop-Goes :
      (i : ℕ) (vms : List ManifestVm)
      → i ≤ max_vms
      → Lacks mem hyp_node (vm_id_offset + i)
      → (finish (ltb 0 i) vms).result ≡ ok tt
      → Goes mem max_vms hyp_node i vms (finish (ltb 0 i) vms)
  stop-Goes i vms few lacks h =
      ([], sym (append-nil vms), lacks, omega (arith, finish-ok i vms h), omega (arith, few))

  abbrev Enters : ℕ → ℕ → List ManifestVm → FdtNode → Parsed
  Enters rounds i vms n =
      let vm_id = vm_id_offset + i in
      elim (i == max_vms) [
        | true ↦ parsed vms (err too_many_vms)
        | false ↦ elim ((vm_id == primary_vm_id) && ltb 0 i) [
          | true ↦ parsed vms panics
          | false ↦ or_return vms (new mem n vm_id) (λ vm.
              or_return vms (push_vm max_vms vms vm) (
                read_vms mem max_vms rounds (i + 1) hyp_node (ltb 0 i || (vm_id == primary_vm_id))))
        ]
      ]

  enter-Goes :
      (rounds i : ℕ) (vms : List ManifestVm) (n : FdtNode)
      → i ≤ max_vms
      → find_vm mem hyp_node (vm_id_offset + i) ≡ ok (got tt n)
      → ((more : List ManifestVm)
          → (Final rounds (i + 1) more).result ≡ ok tt
          → length more ≡ i + 1
          → i + 1 ≤ max_vms
          → Goes mem max_vms hyp_node (i + 1) more (Final rounds (i + 1) more))
      → length vms ≡ i
      → (Enters rounds i vms n).result ≡ ok tt
      → Goes mem max_vms hyp_node i vms (Enters rounds i vms n)
  enter-Goes rounds i vms n few looked ih len h = elim (Bool-cases (i == max_vms)) [
    | inl last ↦ let g = rw (Enters, last) at h in absurd cc
    | inr more ↦
        let vm_id = vm_id_offset + i in
        let g = rw (Enters, more, marks_once i) at h in
        let (vm, read, goes) = or_return-ok vms (new mem n vm_id) _ g in
        let g₁ = rw goes at g in
        let (vms', pushed, goes') = or_return-ok vms (push_vm max_vms vms vm) _ g₁ in
        let g₂ = rw (goes', marks i) at g₁ in
        let same = push_vm-ok max_vms vms vm vms' pushed in
        let left : i + 1 ≤ max_vms = ground (arith, more) in
        let size : length vms' ≡ i + 1 = omega (arith, len, pushed-length vms vm vms' same) in
        let (rest, is, from, low, high) = ih vms' g₂ size left in
        let whole : Enters rounds i vms n ≡ Final rounds (i + 1) vms' =
          rw (Enters, more, marks_once i) (goes ∙ goes' ∙ rw (marks i) refl) in
        let one : vms' ++ rest ≡ vms ++ (vm ∷ rest) = pushed-append vms rest vm vms' same in
        subst (Goes mem max_vms hyp_node i vms) (sym whole)
          (vm ∷ rest, is ∙ one, ((n, looked, read), from), omega (arith, low), omega (arith, high))
  ]

  pub read_vms-Goes :
      (rounds i : ℕ) (vms : List ManifestVm)
      → i + rounds ≡ max_vms + 1
      → i ≤ max_vms
      → length vms ≡ i
      → (Final rounds i vms).result ≡ ok tt
      → Goes mem max_vms hyp_node i vms (Final rounds i vms)
  unfolding read_vms
  read_vms-Goes zero i vms e few len h = absurd (omega arith)
  read_vms-Goes (suc rounds) i vms e few len h =
      let (found, looked, goes) = or_return-ok vms (find_vm mem hyp_node (vm_id_offset + i)) _ h in
      let next : (more : List ManifestVm)
          → (Final rounds (i + 1) more).result ≡ ok tt
          → length more ≡ i + 1
          → i + 1 ≤ max_vms
          → Goes mem max_vms hyp_node (i + 1) more (Final rounds (i + 1) more) =
        λ more ok_more size left.
          read_vms-Goes rounds (i + 1) more (omega (arith, e)) left size ok_more in
      let h' = rw goes at h in
      elim (on_child-ok vms found (Enters rounds i vms) (finish (ltb 0 i) vms) h') [
        | inr (n, absent, stops) ↦
            subst (Goes mem max_vms hyp_node i vms) (sym (goes ∙ stops))
              (stop-Goes i vms few (n, rw absent at looked) (rw stops at h'))
        | inl (n, there, reads) ↦
            subst (Goes mem max_vms hyp_node i vms) (sym (goes ∙ reads))
              (enter-Goes rounds i vms n few (rw there at looked) next len (rw reads at h'))
      ]
