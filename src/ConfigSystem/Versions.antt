-- ===== src/ConfigSystem/Versions.antt =====
-- ConfigVersionController. Time stamps and the texts of a change are left out.
use advanced_golang_tutorial.Prelude.{
  ℕ, List, [], ◌∷◌, ◌++◌, Option, none, if◌then◌else◌, ltb, length, add_i64, Text, ◌-◌, get_elem?,
}
use advanced_golang_tutorial.ConfigSystem.Validation.{ApplicationConfig}

pub record ConfigVersion : Type 0 where
  pub version : Text
  pub config : ApplicationConfig
  pub checksum : Text

pub record VersionController : Type 0 where
  pub versions : List ConfigVersion
  pub current_version : Text
  pub max_versions : ℕ
  pub version_counter : ℕ

abbrev pub tail : List ConfigVersion → List ConfigVersion
tail [] = []
tail (v ∷ vs) = vs

abbrev pub new_version : ApplicationConfig → ConfigVersion
new_version c = record { version = c.version; config = c; checksum = c.checksum }

unfoldable pub add_version : ApplicationConfig → VersionController → VersionController
add_version c v =
    let grown = v.versions ++ new_version c ∷ [] in
    record v {
      versions = if ltb v.max_versions (length grown) then tail grown else grown;
      current_version = c.version;
      version_counter = add_i64 v.version_counter 1;
    }

-- versions[len(versions)-2], where there are two.
unfoldable pub previous_version : List ConfigVersion → Option ConfigVersion
previous_version vs = if ltb (length vs) 2 then none else get_elem? vs (length vs - 2)
