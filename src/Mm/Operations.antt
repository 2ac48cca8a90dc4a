-- ===== src/Mm/Operations.antt =====
-- hfo2/src/mm.rs: `PageTable`, with the operations that memory sharing uses.
use hafnium_verification.Mm.{Arch}
use hafnium_verification.Mm.Map.{Tables, identity_map, unmap}
use hafnium_verification.Mm.Attrs.{get_mode, defrag}
use hafnium_verification.Mm.Identity.{is_done}
use hafnium_verification.Spci.{PageTables}
use hafnium_verification.Hypervisor.Share.{Stage1}

-- `Ok` is `true`.
abbrev pub page_tables : (arch : Arch) → PageTables (Tables arch)
page_tables arch = record {
  get_mode = get_mode arch;
  identity_map = λ tables begin end mode mpool.
      let (tables', mpool', status) = identity_map arch begin end mode tables mpool in
      (tables', mpool', is_done status);
  defrag = defrag arch;
}

abbrev pub stage1_tables : (arch : Arch) → Stage1 (Tables arch)
stage1_tables arch = record {
  tables = page_tables arch;
  unmap = λ tables begin end mpool.
      let (tables', mpool', status) = unmap arch begin end tables mpool in
      (tables', mpool', is_done status);
}
