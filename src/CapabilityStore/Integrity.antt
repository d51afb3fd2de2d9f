-- ===== src/CapabilityStore/Integrity.antt =====
-- capabilities/capability_store.py: packages are read back as they were saved, and not otherwise.
use capability_runner.Prelude.{
  String, ◌<>◌, ◌≡◌, ◌≢◌, refl, sym, ap, Bool, true, false, Option, none, some, List, [], ◌∷◌,
  Result, ok, err, Dict, lookup, lookup-insert, insert, has_key, any, ◌&&◌, ◌||◌, ◌==◌, string_eq,
  if◌then◌else◌, arith,
}
use mathlib.Core.Logic.{ite}
use text.Mathlib.TextLemmas.{append_cancel_left}
use capability_runner.Contracts.Capabilities.{CapabilityDefinition}
use capability_runner.CapabilityValidator.{validate}
use capability_runner.CapabilityStore.{Files, load_error}
use capability_runner.CapabilityStore.Names.{is_capability_id, is_version}
use capability_runner.CapabilityStore.Packages.{
  CapabilityPackage, PackageCodec, is_ephemeral, package_path, capability_path, profile_path,
  metadata_path, write_package, save_package, package_of, read_package, load_package,
}

lookup_same : (k v : String) (d : Dict String) → lookup k (insert k v d) ≡ some v
lookup_same k v d = rw lookup-insert (go (string_eq.dec k k))
  where
    go : (x : Dec (k ≡ k)) → (if ite x true false then some v else lookup k d) ≡ some v
    go (yes p) = refl
    go (no n) = absurd (n refl)

lookup_other : (j k v : String) (d : Dict String) → j ≢ k → lookup j (insert k v d) ≡ lookup j d
lookup_other j k v d n = rw lookup-insert (go (string_eq.dec j k))
  where
    go : (x : Dec (j ≡ k)) → (if ite x true false then some v else lookup j d) ≡ lookup j d
    go (yes p) = absurd (n p)
    go (no m) = refl

pub differ : (a b : String) → (a == b) ≡ false → a ≢ b
differ a b e p = ground arith

validate-same : (d x : CapabilityDefinition) → validate d ≡ ok x → validate d ≡ ok d
unfolding validate
validate-same d x e = ground arith

module _ (Extra : Type 0) (codec : PackageCodec Extra) where
  capability_not-profile : (d : String) → capability_path Extra codec d ≢ profile_path Extra codec d
  unfolding capability_path profile_path capability_runner.Prelude.string_eq
  capability_not-profile d e =
      differ "/capability.json" "/application-profile.json" refl
        (append_cancel_left d "/capability.json" "/application-profile.json" e)

  capability_not-metadata :
      (d : String) → capability_path Extra codec d ≢ metadata_path Extra codec d
  unfolding capability_path metadata_path capability_runner.Prelude.string_eq
  capability_not-metadata d e =
      differ "/capability.json" "/metadata.json" refl
        (append_cancel_left d "/capability.json" "/metadata.json" e)

  profile_not-metadata : (d : String) → profile_path Extra codec d ≢ metadata_path Extra codec d
  unfolding profile_path metadata_path capability_runner.Prelude.string_eq
  profile_not-metadata d e =
      differ "/application-profile.json" "/metadata.json" refl
        (append_cancel_left d "/application-profile.json" "/metadata.json" e)

  -- What `save_package` has written, where it returns.
  abbrev Written : String → CapabilityPackage Extra → Files → Type 0
  Written d bundle files =
      (lookup (metadata_path Extra codec d) files
        ≡ some (
            codec.dumps_metadata bundle.extra
              (codec.sha256 (codec.dumps_capability bundle.capability))
              (codec.sha256 (codec.dumps_profile bundle.profile))))
      × (lookup (capability_path Extra codec d) files
          ≡ some (codec.dumps_capability bundle.capability))
      × (lookup (profile_path Extra codec d) files ≡ some (codec.dumps_profile bundle.profile))

  write-Written :
      (d : String) (bundle : CapabilityPackage Extra) (files : Files)
      → Written d bundle (write_package Extra codec d bundle files)
  unfolding write_package
  write-Written d bundle files = (
    lookup_same (metadata_path Extra codec d) _ _,
    (rw (lookup_other _ (metadata_path Extra codec d) _ _ (capability_not-metadata d)) (
        rw (lookup_other _ (profile_path Extra codec d) _ _ (capability_not-profile d))
          (lookup_same (capability_path Extra codec d) _ _))),
    (rw (lookup_other _ (metadata_path Extra codec d) _ _ (profile_not-metadata d))
        (lookup_same (profile_path Extra codec d) _ _)),
  )

  -- The directory of a package.
  abbrev pub directory_of : CapabilityPackage Extra → String
  directory_of bundle =
      package_path Extra codec bundle.capability.capability_id bundle.capability.capability_version

  save_package-Written :
      (bundle : CapabilityPackage Extra) (files : Files) (d : String)
      → (save_package Extra codec bundle files).0 ≡ ok d
      → (validate bundle.capability ≡ ok bundle.capability)
        × Written (directory_of bundle) bundle (save_package Extra codec bundle files).1
  unfolding save_package
  save_package-Written bundle files d h =
      go (validate bundle.capability) refl
        (bundle.profile.discovery_only || any is_ephemeral bundle.profile.target_bindings) refl
        (has_key (directory_of bundle) files) refl
    where
      go :
          (v : Result String CapabilityDefinition)
          → validate bundle.capability ≡ v
          → (b : Bool)
          → (bundle.profile.discovery_only || any is_ephemeral bundle.profile.target_bindings) ≡ b
          → (c : Bool) → has_key (directory_of bundle) files ≡ c
          → (validate bundle.capability ≡ ok bundle.capability)
            × Written (directory_of bundle) bundle (save_package Extra codec bundle files).1
      go (err x) e b f c g = absurd (ground arith)
      go (ok x) e true f c g = absurd (ground arith)
      go (ok x) e false f true g = absurd (ground arith)
      go (ok x) e false f false g = (
        validate-same bundle.capability x e,
        rw (save_package, e, f, g) (write-Written (directory_of bundle) bundle files),
      )

  module _ (bundle : CapabilityPackage Extra) (files : Files) (directory : String)
      (saved : (save_package Extra codec bundle files).0 ≡ ok directory)
      (id : is_capability_id bundle.capability.capability_id ≡ true)
      (version : is_version bundle.capability.capability_version ≡ true)
      (metadata : codec.loads_metadata (
          codec.dumps_metadata bundle.extra
            (codec.sha256 (codec.dumps_capability bundle.capability))
            (codec.sha256 (codec.dumps_profile bundle.profile)))
        ≡ some (
          bundle.extra,
          (
            codec.sha256 (codec.dumps_capability bundle.capability),
            codec.sha256 (codec.dumps_profile bundle.profile),
          ),
        )) where
    -- A package that was saved is loaded as it was, if JSON and pydantic read its parts back.
    pub save_package-load_package :
        codec.loads_capability (codec.dumps_capability bundle.capability) ≡ some bundle.capability
        → codec.loads_profile (codec.dumps_profile bundle.profile) ≡ some bundle.profile
        → load_package Extra codec bundle.capability.capability_id
            bundle.capability.capability_version
            (save_package Extra codec bundle files).1
          ≡ ok bundle
    unfolding load_package read_package
    save_package-load_package c p =
        let (valid, (m, a, b)) = save_package-Written bundle files directory saved in
        rw (load_package, id, version, m, a, b, metadata)
          (whole (codec.sha256 (codec.dumps_capability bundle.capability))
            (codec.sha256 (codec.dumps_profile bundle.profile)) (rw (c, p, package_of, valid) refl))
      where
        whole :
            (h k : String)
            → package_of Extra codec bundle.extra
                (codec.loads_capability (codec.dumps_capability bundle.capability))
                (codec.loads_profile (codec.dumps_profile bundle.profile))
              ≡ ok bundle
            → (if h == h && k == k
                then package_of Extra codec bundle.extra
                    (codec.loads_capability (codec.dumps_capability bundle.capability))
                    (codec.loads_profile (codec.dumps_profile bundle.profile))
                else err load_error)
              ≡ ok bundle
        whole h k e = ground (arith, e)

    -- A package whose capability was changed behind `save_package` is refused: where the hash of the
    -- new text differs from that of the one saved, `load_package` fails its integrity check.
    pub changed_package_refused :
        (changed : String)
        → codec.sha256 changed ≢ codec.sha256 (codec.dumps_capability bundle.capability)
        → load_package Extra codec bundle.capability.capability_id
            bundle.capability.capability_version
            (insert
              (capability_path Extra codec (directory_of bundle))
              changed
              (save_package Extra codec bundle files).1)
          ≡ err load_error
    unfolding load_package read_package
    changed_package_refused changed differs =
        let (valid, (m, a, b)) = save_package-Written bundle files directory saved in
        let d = directory_of bundle in
        let after = (save_package Extra codec bundle files).1 in
        let other : lookup (metadata_path Extra codec d)
              (insert (capability_path Extra codec d) changed after)
            ≡ lookup (metadata_path Extra codec d) after =
          lookup_other _ _ changed after (λ e. capability_not-metadata d (sym e)) in
        let other_profile : lookup (profile_path Extra codec d)
              (insert (capability_path Extra codec d) changed after)
            ≡ lookup (profile_path Extra codec d) after =
          lookup_other _ _ changed after (λ e. capability_not-profile d (sym e)) in
        let here : lookup (capability_path Extra codec d)
              (insert (capability_path Extra codec d) changed after)
            ≡ some changed =
          lookup_same _ changed after in
        rw (load_package, id, version, other, other_profile, here, m, b, metadata)
          (ground (arith, differs))
