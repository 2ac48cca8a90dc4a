-- ===== src/Tests/Words.antt =====
-- hfo2/src/cpu.rs and abi.rs: virtual interrupts of one vCPU, and packed return values.
use hafnium_verification.Prelude.{◌≡◌, refl, ◌<◌, true, false, arith, ltb, word}
use hafnium_verification.Interrupts.{
  Interrupts, new, inject, enable, get, is_interrupted, id_to_index, num_intids,
}
use hafnium_verification.Interrupts.Count.{IsValid}
use hafnium_verification.Interrupts.Ops.{Injected}
use hafnium_verification.Interrupts.Deliver.{new-IsValid, inject_lem, enable_lem, get_lem, Took}
use hafnium_verification.Abi.{wait_for_message, into_raw}
use hafnium_verification.Abi.Packing.{decode, decode-into_raw}

-- Interrupt 40 is enabled, and then injected.
abbrev enabled_40 : Interrupts
enabled_40 = (enable new 40 true).1

abbrev injected_40 : Interrupts
injected_40 = (inject enabled_40 40).1

enabled_40-IsValid : IsValid enabled_40
enabled_40-IsValid = (enable_lem new new-IsValid 40 true).0

inject_lem_example : Injected enabled_40 (inject enabled_40 40)
inject_lem_example = inject_lem enabled_40 enabled_40-IsValid 40

enable_lem_example : IsValid (enable new 40 true).1 × ((enable new 40 true).0 ≡ ltb 40 num_intids)
enable_lem_example = enable_lem new new-IsValid 40 true

injected_40-IsValid : IsValid injected_40
injected_40-IsValid = (inject_lem enabled_40 enabled_40-IsValid 40).valid

has_interrupt : is_interrupted injected_40 ≡ true
unfolding is_interrupted inject enable new id_to_index
has_interrupt = refl

get_lem_example : Took injected_40 injected_40-IsValid (get injected_40)
get_lem_example = get_lem injected_40 injected_40-IsValid has_interrupt

takes_40 : (get injected_40).0 ≡ 40
unfolding get inject enable new id_to_index
takes_40 = refl

no_interrupt : is_interrupted new ≡ false
unfolding is_interrupted new
no_interrupt = refl

decode-into_raw_example :
    (decode (into_raw (wait_for_message 1000)) ≡ wait_for_message 1000)
    × (into_raw (wait_for_message 1000) < word)
decode-into_raw_example = decode-into_raw (wait_for_message 1000) (omega arith)
