-- ===== src/CapabilityStore/Immutability.antt =====
-- capabilities/capability_store.py: what is stored stays stored.
use capability_runner.Prelude.{
  String, ◌≡◌, refl, ap, Bool, true, false, Option, none, some, List, [], ◌∷◌, ok, err, lookup,
  lookup-insert, insert, has_key, is_some, string_eq, arith, if◌then◌else◌, ◌<>◌,
}
use mathlib.Core.Logic.{ite}
use capability_runner.Contracts.Capabilities.{CapabilityDefinition}
use capability_runner.CapabilityStore.{
  Files, DefinitionCodec, version_already_exists, path_for, Disk, quiet_disk, save,
}

-- Every file of one directory is in the other, with the same text.
abbrev pub Extends : Files → Files → Type 0
Extends before after =
    (path text : String) → lookup path before ≡ some text → lookup path after ≡ some text

insert-Extends :
    (path text : String) (files : Files)
    → lookup path files ≡ none
    → Extends files (insert path text files)
insert-Extends path text files new p t found = rw lookup-insert (go (string_eq.dec p path))
  where
    go : (d : Dec (p ≡ path)) → (if ite d true false then some text else lookup p files) ≡ some t
    go (yes e) = absurd (ground (arith, ap (λ k. lookup k files) e))
    go (no n) = found

module _ (codec : DefinitionCodec) where
  save-Extends :
      (definition : CapabilityDefinition) (files : Files)
      → Extends files (save codec quiet_disk definition files).1
  unfolding save
  save-Extends definition files = go (has_key destination files) refl
    where
      destination : String
      destination = path_for definition.capability_id definition.capability_version

      absent : (o : Option String) → is_some o ≡ false → o ≡ none
      absent none e = refl
      absent (some t) e = absurd (ground arith)

      go :
          (b : Bool)
          → has_key destination files ≡ b
          → Extends files (save codec quiet_disk definition files).1
      go true e = rw (save, e) (λ p t h. h)
      go false e =
          rw (save, e)
            (insert-Extends destination (codec.dumps definition <> "\n") files
              (absent (lookup destination files) e))

  unfoldable pub save_all : List CapabilityDefinition → Files → Files
  save_all [] files = files
  save_all (definition ∷ rest) files = save_all rest (save codec quiet_disk definition files).1

  -- Stored versions are immutable: whatever capabilities are saved, one after the other, every file
  -- that was there is there afterwards, with the same text.
  pub save_all-Extends :
      (definitions : List CapabilityDefinition) (files : Files) (path text : String)
      → lookup path files ≡ some text
      → lookup path (save_all definitions files) ≡ some text
  unfolding save_all
  save_all-Extends [] files path text h = h
  save_all-Extends (definition ∷ rest) files path text h =
      save_all-Extends rest (save codec quiet_disk definition files).1 path text
        (save-Extends definition files path text h)

  -- What a `save` that returns has written.
  pub saved-lookup :
      (disk : Disk) (definition : CapabilityDefinition) (files : Files) (path : String)
      → (save codec disk definition files).0 ≡ ok path
      → lookup
          (path_for definition.capability_id definition.capability_version)
          (save codec disk definition files).1
        ≡ some (codec.dumps definition <> "\n")
  unfolding save
  saved-lookup disk definition files path h =
      go (has_key destination files) refl disk.written refl
        (has_key destination (disk.writing files)) refl
    where
      destination : String
      destination = path_for definition.capability_id definition.capability_version

      go :
          (b : Bool)
          → has_key destination files ≡ b
          → (c : Bool) → disk.written ≡ c
          → (d : Bool) → has_key destination (disk.writing files) ≡ d
          → lookup
              (path_for definition.capability_id definition.capability_version)
              (save codec disk definition files).1
            ≡ some (codec.dumps definition <> "\n")
      go true e c f d g = absurd (ground arith)
      go false e false f d g = absurd (ground arith)
      go false e true f true g = absurd (ground arith)
      go false e true f false g =
          rw (save, e, f, g, lookup-insert) (here (string_eq.dec destination destination))
        where
          here :
              (d : Dec (destination ≡ destination))
              → (if ite d true false
                  then some (codec.dumps definition <> "\n")
                  else lookup destination (disk.replacing (disk.writing files)))
                ≡ some (codec.dumps definition <> "\n")
          here (yes p) = refl
          here (no n) = absurd (n refl)

  -- A version is saved once: a second `save` of it is refused, whatever other processes do meanwhile,
  -- and leaves the files as they are.
  pub save_twice :
      (disk other : Disk) (first second : CapabilityDefinition) (files : Files) (path : String)
      → (save codec disk first files).0 ≡ ok path
      → second.capability_id ≡ first.capability_id
      → second.capability_version ≡ first.capability_version
      → save codec other second (save codec disk first files).1
        ≡ (err version_already_exists, (save codec disk first files).1)
  unfolding save path_for
  save_twice disk other first second files path h e f =
      let found = saved-lookup disk first files path h in rw (save, e, f, found) refl
