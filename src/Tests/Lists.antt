-- ===== src/Tests/Lists.antt =====
-- hfo2/src/list.rs on a list with the head 10.
use hafnium_verification.Prelude.{refl, false, List, [], ◌∷◌}
use hafnium_verification.DList.{Heap, list_init}
use hafnium_verification.DList.Refines.{
  Call, append, prepend, remove, empty, pop_front, Answer, nothing, flag, entry, run_all, Agrees,
  list_init-IsList, run_all-Agrees,
}

abbrev nowhere : Heap
nowhere = record { next = λ e. 0; prev = λ e. 0 }

abbrev calls : List Call
calls = append 1 ∷ append 2 ∷ prepend 3 ∷ append 4 ∷ remove 2 ∷ empty ∷ pop_front ∷ pop_front ∷ []

abbrev answers : List Answer
answers = nothing ∷ nothing ∷ nothing ∷ nothing ∷ nothing ∷ flag false ∷ entry 3 ∷ entry 1 ∷ []

run_all-Agrees_example : Agrees 10 (run_all 10 calls (list_init 10 nowhere)) (answers, 4 ∷ [])
run_all-Agrees_example =
    run_all-Agrees 10 calls (list_init 10 nowhere) [] (answers, 4 ∷ []) refl
      (list_init-IsList nowhere 10)
