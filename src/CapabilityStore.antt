-- ===== src/CapabilityStore.antt =====
-- capabilities/capability_store.py: `CapabilityStore`, a directory of immutable capability versions.
--
-- The directory is a dict from paths, relative to the store's root, to the texts of the files. JSON,
-- the hash and the models of pydantic are parameters, and so is what other processes do to the files
-- while a capability is saved.
pub mod Names
pub mod Packages
pub mod Integrity
pub mod Immutability
pub mod RoundTrips
use capability_runner.Prelude.{
  String, ◌<>◌, Bool, true, false, Option, none, some, List, [], ◌∷◌, Result, ok, err, Dict, lookup,
  insert, has_key, ◌&&◌, if◌then◌else◌,
}
use capability_runner.Contracts.Capabilities.{CapabilityDefinition}
use capability_runner.CapabilityValidator.{validate}
use Names.{is_capability_id, is_version}

abbrev pub Files : Type 0
Files = Dict String

-- `json.dumps(definition.model_dump(...))` and `CapabilityDefinition.model_validate(json.loads(text))`
pub record DefinitionCodec : Type 0 where
  pub dumps : CapabilityDefinition → String
  pub loads : String → Option CapabilityDefinition

pub data StoreError : Type 0 where
  version_already_exists : StoreError
  load_error : StoreError
  store_error : StoreError
  -- exceptions of pydantic, of the validator and of the file system that are not caught
  invalid_identity : StoreError
  validation_error : StoreError
  os_error : StoreError

-- The path of `_path_for` without its suffix.
unfoldable pub stem_for : String → String → String
stem_for id version = id <> ("/" <> version)

unfoldable pub path_for : String → String → String
unfolding stem_for
path_for id version = stem_for id version <> ".json"

-- What other processes do to the files, and whether the temporary file can be written.
pub record Disk : Type 0 where
  -- between the first look at the destination and the second
  pub writing : Files → Files
  pub written : Bool
  -- between the second look and `os.replace`
  pub replacing : Files → Files

-- A disk that no other process uses, and that is not full.
abbrev pub quiet_disk : Disk
quiet_disk = record { writing = λ files. files; written = true; replacing = λ files. files }

module _ (codec : DefinitionCodec) where
  -- `save`: the path that was written
  unfoldable pub save : Disk → CapabilityDefinition → Files → Result StoreError String × Files
  unfolding path_for
  save disk definition files =
      let destination = path_for definition.capability_id definition.capability_version in
      let during = disk.writing files in
      let after = disk.replacing during in
      if has_key destination files
      then (err version_already_exists, files)
      else if disk.written
      then if has_key destination during
        then (err version_already_exists, during)
        else (ok destination, insert destination (codec.dumps definition <> "\n") after)
      else (err os_error, during)

  abbrev pub checked : Result String CapabilityDefinition → Result StoreError CapabilityDefinition
  checked (ok definition) = ok definition
  checked (err e) = err load_error

  unfoldable pub loaded : Option String → Result StoreError CapabilityDefinition
  unfolding validate
  loaded none = err load_error
  loaded (some payload) = elim (codec.loads payload) [
    | none ↦ err load_error
    | some definition ↦ checked (validate definition)
  ]

  -- `load`; an identifier that is none is refused before the `try`
  unfoldable pub load : String → String → Files → Result StoreError CapabilityDefinition
  unfolding loaded path_for is_capability_id is_version
  load id version files =
      if is_capability_id id && is_version version
      then loaded (lookup (path_for id version) files)
      else err invalid_identity
