-- ===== src/CapabilityStore/Packages.antt =====
-- capabilities/capability_store.py: `save_package` and `load_package`, whose files are checked against
-- their hashes. A directory is the entry of its own path.
use capability_runner.Prelude.{
  String, ◌<>◌, Bool, false, Option, none, some, Result, ok, err, lookup, insert, has_key, any, not,
  ◌&&◌, ◌||◌, ◌==◌, string_eq, if◌then◌else◌,
}
use capability_runner.Contracts.Capabilities.{CapabilityDefinition}
use capability_runner.Contracts.Surfaces.{ApplicationProfile, BrowserTargetBinding}
use capability_runner.CapabilityValidator.{validate}
use capability_runner.CapabilityStore.{
  Files, StoreError, load_error, store_error, invalid_identity, validation_error, os_error,
  stem_for,
}
use capability_runner.CapabilityStore.Names.{is_capability_id, is_version}

-- `CapabilityPackage`, with the fields that the store only passes on as one
pub record CapabilityPackage (Extra : Type 0) : Type 0 where
  pub capability : CapabilityDefinition
  pub profile : ApplicationProfile
  pub extra : Extra

-- The texts that pydantic and JSON make of the parts, and what they read in them.
pub record PackageCodec (Extra : Type 0) : Type 0 where
  pub dumps_capability : CapabilityDefinition → String
  pub loads_capability : String → Option CapabilityDefinition
  pub dumps_profile : ApplicationProfile → String
  pub loads_profile : String → Option ApplicationProfile
  -- with the hashes of the capability and of the profile
  pub dumps_metadata : Extra → String → String → String
  pub loads_metadata : String → Option (Extra × (String × String))
  pub sha256 : String → String

abbrev pub is_given : Option String → Bool
is_given none = false
is_given (some s) = not (s == "")

abbrev pub is_ephemeral : BrowserTargetBinding → Bool
is_ephemeral item = is_given item.ephemeral_ref || is_given item.observation_id

module _ (Extra : Type 0) (codec : PackageCodec Extra) where
  unfoldable pub package_path : String → String → String
  unfolding stem_for
  package_path id version = stem_for id version <> ".package"

  unfoldable pub capability_path : String → String
  capability_path directory = directory <> "/capability.json"

  unfoldable pub profile_path : String → String
  profile_path directory = directory <> "/application-profile.json"

  unfoldable pub metadata_path : String → String
  metadata_path directory = directory <> "/metadata.json"

  -- The four entries of a package.
  unfoldable pub write_package : String → CapabilityPackage Extra → Files → Files
  unfolding capability_path profile_path metadata_path
  write_package directory bundle files =
      let capability_text = codec.dumps_capability bundle.capability in
      let profile_text = codec.dumps_profile bundle.profile in
      insert (metadata_path directory)
        (codec.dumps_metadata bundle.extra (codec.sha256 capability_text)
          (codec.sha256 profile_text))
        (insert (profile_path directory) profile_text
          (insert (capability_path directory) capability_text (insert directory "" files)))

  -- `save_package`
  unfoldable pub save_package : CapabilityPackage Extra → Files → Result StoreError String × Files
  unfolding write_package package_path validate
  save_package bundle files =
      let directory =
        package_path bundle.capability.capability_id bundle.capability.capability_version in
      elim (validate bundle.capability) [
        | err e ↦ (err validation_error, files)
        | ok definition ↦
            if bundle.profile.discovery_only || any is_ephemeral bundle.profile.target_bindings
            then (err store_error, files)
            else if has_key directory files
            then (err os_error, files)
            else (ok directory, write_package directory bundle files)
      ]

  abbrev pub package_of :
      Extra
      → Option CapabilityDefinition
      → Option ApplicationProfile
      → Result StoreError (CapabilityPackage Extra)
  package_of extra (some capability) (some profile) = elim (validate capability) [
    | err e ↦ err validation_error
    | ok definition ↦ ok (record { capability = capability; profile = profile; extra = extra })
  ]
  package_of extra _ _ = err validation_error

  -- The texts of the capability and of the profile, against the metadata
  unfoldable pub read_package :
      Option (Extra × (String × String))
      → Option String
      → Option String
      → Result StoreError (CapabilityPackage Extra)
  unfolding validate
  read_package (some (extra, (capability_hash, profile_hash))) (some capability) (some profile) =
      if codec.sha256 capability == capability_hash && codec.sha256 profile == profile_hash
      then package_of extra (codec.loads_capability capability) (codec.loads_profile profile)
      else err load_error
  read_package none _ _ = err validation_error
  read_package (some m) _ _ = err os_error

  abbrev pub some_metadata : Option String → Option (Extra × (String × String))
  some_metadata none = none
  some_metadata (some t) = codec.loads_metadata t

  -- `load_package`; a missing file and a text that is no JSON raise, which is not told apart here.
  unfoldable pub load_package :
      String → String → Files → Result StoreError (CapabilityPackage Extra)
  unfolding read_package package_path capability_path profile_path metadata_path is_capability_id
      is_version
  load_package id version files =
      let directory = package_path id version in
      if is_capability_id id && is_version version
      then read_package (some_metadata (lookup (metadata_path directory) files))
          (lookup (capability_path directory) files) (lookup (profile_path directory) files)
      else err invalid_identity
