-- ===== src/Manifest/Iff.antt =====
-- `Manifest::init` accepts these trees, no others, and reads their VMs.
use mathlib.Core.List.{append-nil, append_assoc}
use hafnium_verification.Prelude.{
  ℕ, zero, suc, ◌≡◌, refl, sym, ap, subst, ◌∙◌, ◌+◌, ◌≤◌, ◌↔◌, true, false, ◌||◌, List, [], ◌∷◌,
  ◌++◌, ltb, ◌==◌, length, length-append, arith,
}
use hafnium_verification.Outcome.{Outcome, got, fails, panicked, out_of_fuel}
use hafnium_verification.Fdt.Node.{FdtNode}
use hafnium_verification.Manifest.{
  Error, no_hypervisor_fdt_node, moved_or, Result, ok, err, panics, no_fuel, ◌>>=◌, ManifestVm,
  vm_id_offset, primary_vm_id,
}
use hafnium_verification.Manifest.Init.{
  Parsed, parsed, find_vm, check_reserved, refuse_child, push_vm, read_vms, check_compatible,
  hypervisor_node, init,
}
use hafnium_verification.Manifest.Accepts.{
  VmsFrom, Accepts, or_return-ok, read_vms-Goes, marks, marks_once,
}

bind-ok :
    {A B : Type 0} (r : Result A) (f : A → Result B) {b : B}
    → (r >>= f) ≡ ok b
    → (a : A) × (r ≡ ok a) × (f a ≡ ok b)
bind-ok (ok a) f h = (a, refl, h)
bind-ok (err e) f h = absurd cc
bind-ok panics f h = absurd cc
bind-ok no_fuel f h = absurd cc

moved_or-ok :
    {S A : Type 0} (e : Error) (o : Outcome S A) {s : S}
    → moved_or e o ≡ ok s
    → (a : A) × (o ≡ got a s)
moved_or-ok e (got a s') {s} h = (a, cc)
moved_or-ok e (fails s) h = absurd cc
moved_or-ok e panicked h = absurd cc
moved_or-ok e out_of_fuel h = absurd cc

refuse_child-ok :
    (absent : Result (Unit {0})) (o : Outcome FdtNode (Unit {0}))
    → refuse_child absent o ≡ ok tt
    → (n : FdtNode) × (o ≡ fails n)
refuse_child-ok absent (got u n) h = absurd cc
refuse_child-ok absent (fails n) h = (n, refl)
refuse_child-ok absent panicked h = absurd cc
refuse_child-ok absent out_of_fuel h = absurd cc

module _ (mem : ℕ → ℕ) (max_vms : ℕ) where
  init-accepted :
      (fdt : FdtNode)
      → (init mem max_vms fdt).result ≡ ok tt
      → Accepts mem max_vms fdt (init mem max_vms fdt).vms
  unfolding init hypervisor_node check_reserved
  init-accepted fdt h =
      let (hyp_node, found, goes₁) = or_return-ok [] (hypervisor_node mem fdt) _ h in
      let h₁ = rw goes₁ at h in
      let (done₂, compatible, goes₂) = or_return-ok [] (check_compatible mem hyp_node) _ h₁ in
      let h₂ = rw goes₂ at h₁ in
      let (done₃, unreserved, goes₃) = or_return-ok [] (check_reserved mem 1 0 hyp_node) _ h₂ in
      let h₃ = rw goes₃ at h₂ in
      let (o, looked, refused) = bind-ok (find_vm mem hyp_node 0) _ unreserved in
      let (n, absent) = refuse_child-ok (ok tt) o refused in
      let (more, is, describes, low, high) =
        read_vms-Goes mem max_vms hyp_node (max_vms + 1) 0 [] (omega arith) (omega arith) refl h₃ in
      let read : (init mem max_vms fdt).vms ≡ more =
        ap (λ (p : Parsed). p.vms) (goes₁ ∙ goes₂ ∙ goes₃) ∙ is in
      subst (Accepts mem max_vms fdt) (sym read) (record {
        hyp_node = hyp_node;
        finds_hypervisor = (moved_or-ok no_hypervisor_fdt_node _ found).1;
        compatible = compatible;
        unreserved = (n, rw absent at looked);
        describes = describes;
        some_vm = omega (arith, low);
        few = omega (arith, high);
      })

  -- The loop reads VMs that the tree describes.
  read_vms-reads :
      (hyp_node : FdtNode) (more : List ManifestVm) (rounds i : ℕ) (vms : List ManifestVm)
      → VmsFrom mem hyp_node i more
      → i + rounds ≡ max_vms + 1
      → i + length more ≤ max_vms
      → 1 ≤ i + length more
      → length vms ≡ i
      → read_vms mem max_vms rounds i hyp_node (ltb 0 i) vms ≡ parsed (vms ++ more) (ok tt)
  unfolding read_vms push_vm
  read_vms-reads hyp_node more zero i vms d e high low len = absurd (omega arith)
  read_vms-reads hyp_node [] (suc rounds) i vms (n, lacks) e high low len =
      let some_read : ltb 0 i ≡ true = ground (arith, low) in
      rw (read_vms, lacks, some_read, append-nil) refl
  read_vms-reads hyp_node (vm ∷ more) (suc rounds) i vms ((n, there, read), d) e high low len =
      let inside : (i == max_vms) ≡ false = ground (arith, high) in
      let room : ltb (length vms) max_vms ≡ true = ground (arith, high, len) in
      let rest =
        read_vms-reads hyp_node more rounds (i + 1) (vms ++ (vm ∷ [])) d (omega (arith, e))
          (omega (arith, high)) (omega arith) (rw length-append (omega (arith, len))) in
      let same : vms ++ (vm ∷ []) ++ more ≡ vms ++ (vm ∷ more) = rw append_assoc refl in
      let step : read_vms mem max_vms (suc rounds) i hyp_node (ltb 0 i) vms
          ≡ read_vms mem max_vms rounds (i + 1) hyp_node
              (ltb 0 i || (vm_id_offset + i == primary_vm_id)) (vms ++ (vm ∷ [])) =
        rw (read_vms, there, inside, marks_once i, read, push_vm, room) refl in
      step
      ∙ ap (λ b. read_vms mem max_vms rounds (i + 1) hyp_node b (vms ++ (vm ∷ []))) (marks i)
      ∙ rest
      ∙ ap (λ l. parsed l (ok tt)) same

  init-reads :
      (fdt : FdtNode) (vms : List ManifestVm)
      → Accepts mem max_vms fdt vms
      → init mem max_vms fdt ≡ parsed vms (ok tt)
  unfolding init hypervisor_node check_reserved
  init-reads fdt vms a =
      let (n, lacks) = a.unreserved in
      let checked : check_reserved mem 1 0 a.hyp_node ≡ ok tt = rw (check_reserved, lacks) refl in
      let read =
        read_vms-reads a.hyp_node vms (max_vms + 1) 0 [] a.describes (omega arith)
          (omega (arith, a.few)) (omega (arith, a.some_vm)) refl in
      rw (init, hypervisor_node, a.finds_hypervisor, a.compatible, checked) read

  -- `Manifest::init` succeeds with these VMs exactly on the trees whose hypervisor node is compatible
  -- and has no node for the reserved id, but nodes that read as these VMs for the ids from 1 on, at
  -- least one of them, at most `MAX_VMS`, and none for the next id.
  pub init_iff :
      (fdt : FdtNode) (vms : List ManifestVm)
      → (init mem max_vms fdt ≡ parsed vms (ok tt)) ↔ Accepts mem max_vms fdt vms
  init_iff fdt vms = (
    λ h.
        subst (Accepts mem max_vms fdt) (ap (λ (p : Parsed). p.vms) h)
          (init-accepted fdt (ap (λ (p : Parsed). p.result) h)),
    init-reads fdt vms,
  )
