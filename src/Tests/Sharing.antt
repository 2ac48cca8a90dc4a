-- ===== src/Tests/Sharing.antt =====
-- hfo2/src/hypervisor.rs and vm.rs on page tables that hold the mode of each page.
use hafnium_verification.Prelude.{
  ℕ, zero, suc, ◌≡◌, refl, true, false, List, [], ◌∷◌, none, some, if◌then◌else◌, ◌==◌, ltb,
  of_some,
}
use hafnium_verification.Abi.{lend}
use hafnium_verification.Mode.{Mode, empty, mode_r, mode_w, mode_unowned, mode_invalid, ◌∪◌}
use hafnium_verification.Mm.Map.{Tables}
use hafnium_verification.Mm.Operations.{page_tables, stage1_tables}
use hafnium_verification.Tests.Tables.{small, no_pages, three_pages}
use hafnium_verification.Mailbox
use hafnium_verification.Mailbox.{Mailbox, set_read}
use hafnium_verification.MPool.{MPool, alone}
use hafnium_verification.Abi.{message}
use hafnium_verification.VCpu.{ready}
use hafnium_verification.Hypervisor.{switch}
use hafnium_verification.Hypervisor.Send.{SpciMessage, Party, Sent, spci_msg_send}
use hafnium_verification.Hypervisor.Delivery.{AreNumbered, Delivers, spci_msg_send-Delivers}
use hafnium_verification.Spci.{PageTables, success}
use hafnium_verification.Hypervisor.Share.{Stage1, World, share_between}
use hafnium_verification.Hypervisor.Sharing.{Shares, share_between-Shares}
use hafnium_verification.Mailbox.Configure.{Configured, configure_pages}
use hafnium_verification.Mailbox.Rollback.{Reaches, configure_pages-Reaches}

abbrev Modes : Type 0
Modes = ℕ → Mode

-- Regions are told apart by the address at which they begin.
abbrev by_begin : PageTables Modes
by_begin = record {
  get_mode = λ p begin end. if ltb begin end then some (p begin) else none;
  identity_map = λ p begin end mode m.
      ((λ a. if ltb begin end then (if a == begin then mode else p a) else p a), m, true);
  defrag = λ p m. (p, m);
}

abbrev stage1 : Stage1 Modes
stage1 = record {
  tables = by_begin;
  unmap = λ h begin end m. ((λ a. if a == begin then empty else h a), m, true);
}

abbrev nothing : MPool
nothing = alone (record { entry_list = []; chunk_list = [] })

abbrev owned : Modes
owned = λ _. mode_r ∪ mode_w

abbrev absent : Modes
absent = λ _. mode_invalid ∪ mode_unowned

-- Two VMs and the hypervisor, with page tables of mm.rs.
abbrev world : World (Tables small) (Tables small)
world = record {
  to = no_pages;
  from = no_pages;
  hypervisor_ptable = no_pages;
  memory = λ a. a;
  pool = three_pages;
}

share_between-Shares_example :
    Shares
      (page_tables small)
      (stage1_tables small)
      world
      4096
      8192
      lend
      (share_between (page_tables small) (stage1_tables small) world 4096 8192 lend)
share_between-Shares_example =
    share_between-Shares (page_tables small) (stage1_tables small) world 4096 8192 lend

abbrev unconfigured : Configured Modes Modes
unconfigured = record {
  ptable = owned;
  hypervisor_ptable = λ _. empty;
  mailbox = record { state = Mailbox.empty; recv = 0; send = 0; waiter_list = []; ready_list = [] };
  pool = nothing;
}

configure_pages-Reaches_example :
    Reaches by_begin stage1 4096 8192 8192 12288 unconfigured (mode_r ∪ mode_w) (mode_r ∪ mode_w) (
      configure_pages by_begin stage1 4096 8192 8192 12288
        (mode_r ∪ mode_w)
        (mode_r ∪ mode_w)
        unconfigured)
configure_pages-Reaches_example =
    configure_pages-Reaches by_begin stage1 4096 8192 8192 12288 unconfigured (mode_r ∪ mode_w)
      (mode_r ∪ mode_w)

-- VM 2 sends three bytes to VM 1.
abbrev greeting : SpciMessage
greeting = record {
  impdef = true;
  len = 3;
  target_vm_id = 1;
  source_vm_id = 2;
  payload = 7 ∷ 8 ∷ 9 ∷ [];
}

abbrev free : Mailbox
free = record { state = Mailbox.empty; recv = 4096; send = 8192; waiter_list = []; ready_list = [] }

abbrev party : ℕ → Party Modes
party id = record {
  id = id;
  ptable = owned;
  mailbox = free;
  waits = λ i. false;
  outbox = greeting;
  inbox = record greeting { len = 0 };
}

abbrev parties : List (Party Modes)
parties = party 1 ∷ party 2 ∷ []

parties-AreNumbered : AreNumbered parties
parties-AreNumbered zero p h = of_some (λ (q : Party Modes). q.id ≡ 1) h refl
parties-AreNumbered (suc zero) p h = of_some (λ (q : Party Modes). q.id ≡ 2) h refl
parties-AreNumbered (suc (suc i)) p h = absurd cc

abbrev sent : Sent Modes
sent = record {
  ret = success;
  next = switch (message 1) ready;
  parties =
      record (party 1) {
        mailbox = set_read free;
        inbox = record greeting { payload = 7 ∷ 8 ∷ 9 ∷ [] };
      }
      ∷ party 2
      ∷ [];
  pool = nothing;
  buffer = [];
}

sends_greeting : spci_msg_send by_begin 6 false (party 2) parties nothing [] ≡ some sent
unfolding spci_msg_send
sends_greeting = refl

spci_msg_send-Delivers_example : Delivers by_begin 6 (party 2) parties sent
spci_msg_send-Delivers_example =
    spci_msg_send-Delivers by_begin 6 false (party 2) parties nothing [] sent parties-AreNumbered
      sends_greeting refl
