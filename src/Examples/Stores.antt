-- ===== src/Examples/Stores.antt =====
-- capabilities/capability_validator.py and capabilities/capability_store.py on a concrete capability.
use capability_runner.Prelude.{
  String, ◌≡◌, ◌↔◌, refl, Bool, true, false, Option, none, some, List, [], ◌∷◌, Result, ok, err,
  lookup, insert, ◌<>◌, string_eq, arith, ◌≢◌,
}
use capability_runner.Contracts.Capabilities.{CapabilityDefinition, fill_template, string}
use capability_runner.Contracts.Surfaces.{input_value}
use capability_runner.CapabilityValidator.{validate}
use capability_runner.CapabilityValidator.Declarations.{IsWellFormed, validate-IsWellFormed}
use capability_runner.CapabilityStore.{Files, DefinitionCodec, load_error, quiet_disk, save, load}
use capability_runner.CapabilityStore.Names.{is_capability_id, is_version}
use capability_runner.CapabilityStore.Immutability.{save_all, save_all-Extends}
use capability_runner.CapabilityStore.RoundTrips.{save-load}
use capability_runner.CapabilityStore.Packages.{
  CapabilityPackage, PackageCodec, capability_path, save_package, load_package,
}
use capability_runner.CapabilityStore.Integrity.{
  differ, directory_of, save_package-load_package, changed_package_refused,
}
use capability_runner.Examples.Fixtures.{balance, bank_profile, read_balance, click_step}

abbrev stored_balance : CapabilityDefinition
stored_balance = record read_balance {
  capability_id = "read_balance";
  capability_version = "1.0.0";
}

validate-IsWellFormed_example :
    (validate stored_balance ≡ ok stored_balance) ↔ IsWellFormed stored_balance
validate-IsWellFormed_example = validate-IsWellFormed stored_balance

stored_balance-valid : validate stored_balance ≡ ok stored_balance
unfolding validate
stored_balance-valid = refl

-- A second step of the same name is refused.
abbrev doubled : CapabilityDefinition
doubled = record read_balance { steps = click_step ∷ click_step ∷ [] }

doubled_refused : validate doubled ≡ err "duplicate step name: step-1"
unfolding validate string_eq
doubled_refused = refl

-- A capability that fills in an input
abbrev typed_balance : CapabilityDefinition
typed_balance = record stored_balance {
  inputs =
      record {
        name = "amount";
        value_type = string;
        required = true;
        sensitive = false;
        min_length = none;
        max_length = none;
        pattern = none;
      }
      ∷ [];
  steps = record click_step { action = fill_template balance (input_value "amount") } ∷ [];
}

-- A codec that knows one definition.
abbrev one_codec : DefinitionCodec
one_codec = record { dumps = λ d. d.name; loads = λ t. some stored_balance }

abbrev other_version : CapabilityDefinition
other_version = record stored_balance { capability_version = "1.1.0" }

abbrev balance_path : String
balance_path = "read_balance/1.0.0.json"

saved_here : (save one_codec quiet_disk stored_balance []).0 ≡ ok balance_path
unfolding save lookup
saved_here = refl

id_here : is_capability_id "read_balance" ≡ true
unfolding is_capability_id capability_runner.Prelude.nat_eq
id_here = refl

version_here : is_version "1.0.0" ≡ true
unfolding is_version capability_runner.Prelude.nat_eq
version_here = refl

save-load_example :
    load one_codec "read_balance" "1.0.0"
      (save_all one_codec (other_version ∷ []) (save one_codec quiet_disk stored_balance []).1)
    ≡ ok stored_balance
save-load_example =
    save-load one_codec quiet_disk stored_balance (other_version ∷ []) [] balance_path saved_here
      stored_balance-valid id_here version_here refl

abbrev one_file : Files
one_file = (balance_path, "old") ∷ []

old_there : lookup balance_path one_file ≡ some "old"
unfolding lookup capability_runner.Prelude.string_eq
old_there = refl

save_all-Extends_example :
    lookup balance_path (save_all one_codec (stored_balance ∷ other_version ∷ []) one_file)
    ≡ some "old"
save_all-Extends_example =
    save_all-Extends one_codec (stored_balance ∷ other_version ∷ []) one_file balance_path "old"
      old_there

abbrev balance_package : CapabilityPackage String
balance_package = record { capability = stored_balance; profile = bank_profile; extra = "identity" }

-- A hash that keeps the text, and JSON that keeps the hashes apart.
abbrev plain_codec : PackageCodec String
plain_codec = record {
  dumps_capability = λ d. d.name;
  loads_capability = λ t. some stored_balance;
  dumps_profile = λ p. p.profile_id;
  loads_profile = λ t. some bank_profile;
  dumps_metadata = λ extra h k. extra;
  loads_metadata = λ t. some ("identity", ("Read balance", "bank-1"));
  sha256 = λ t. t;
}

package_saved :
    (save_package String plain_codec balance_package []).0 ≡ ok "read_balance/1.0.0.package"
unfolding save_package lookup
package_saved = refl

save_package-load_package_example :
    load_package String plain_codec "read_balance" "1.0.0"
      (save_package String plain_codec balance_package []).1
    ≡ ok balance_package
save_package-load_package_example =
    save_package-load_package String plain_codec balance_package [] "read_balance/1.0.0.package"
      package_saved id_here version_here refl refl refl

names_differ : ◌≢◌ {A = String} "Read everything" "Read balance"
unfolding capability_runner.Prelude.string_eq
names_differ = differ "Read everything" "Read balance" refl

changed_package_refused_example :
    load_package String plain_codec "read_balance" "1.0.0" (
      insert
        (capability_path String plain_codec (directory_of String plain_codec balance_package))
        "Read everything"
        (save_package String plain_codec balance_package []).1)
    ≡ err load_error
changed_package_refused_example =
    changed_package_refused String plain_codec balance_package [] "read_balance/1.0.0.package"
      package_saved id_here version_here refl "Read everything" names_differ
