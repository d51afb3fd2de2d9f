-- ===== src/CapabilityStore/RoundTrips.antt =====
-- capabilities/capability_store.py: what was saved is loaded again.
use capability_runner.Prelude.{String, ◌≡◌, refl, true, some, List, ok, ◌<>◌}
use capability_runner.Contracts.Capabilities.{CapabilityDefinition}
use capability_runner.CapabilityValidator.{validate}
use capability_runner.CapabilityStore.{Files, DefinitionCodec, path_for, Disk, save, loaded, load}
use capability_runner.CapabilityStore.Names.{is_capability_id, is_version}
use capability_runner.CapabilityStore.Immutability.{saved-lookup, save_all, save_all-Extends}

-- A capability that was saved is loaded as it was, however many are saved behind it, and whatever
-- other processes did while it was saved: for a definition that `validate` accepts, whose identifier
-- and version have their patterns, and that the JSON codec reads back.
pub save-load :
    (codec : DefinitionCodec) (disk : Disk) (definition : CapabilityDefinition)
    (later : List CapabilityDefinition) (files : Files) (path : String)
    → (save codec disk definition files).0 ≡ ok path
    → validate definition ≡ ok definition
    → is_capability_id definition.capability_id ≡ true
    → is_version definition.capability_version ≡ true
    → codec.loads (codec.dumps definition <> "\n") ≡ some definition
    → load codec definition.capability_id definition.capability_version
        (save_all codec later (save codec disk definition files).1)
      ≡ ok definition
unfolding load loaded
save-load codec disk definition later files path saved valid id version codes =
    let found =
      save_all-Extends codec later (save codec disk definition files).1
        (path_for definition.capability_id definition.capability_version)
        (codec.dumps definition <> "\n") (saved-lookup codec disk definition files path saved) in
    rw (load, id, version, found, loaded, codes, valid) refl
