-- ===== src/ConfigSystem/Endings.antt =====
-- The last versions of the version controller.
use mathlib.Core.List.{append_assoc}
use advanced_golang_tutorial.Prelude.{
  ◌-◌, ◌≤◌, ◌<◌, ◌≡◌, refl, sym, ap, ◌∙◌, false, List, [], ◌∷◌, ◌++◌, some, arith, length,
  length-append, get_elem?, ltb, Bool-cases, inl, inr,
}
use advanced_golang_tutorial.ConfigSystem.Validation.{ApplicationConfig}
use advanced_golang_tutorial.ConfigSystem.Versions.{
  ConfigVersion, VersionController, new_version, add_version, previous_version, tail,
}

get_elem?-append :
    (vs : List ConfigVersion) (v w : ConfigVersion)
    → get_elem? (vs ++ v ∷ w ∷ []) (length vs) ≡ some v
get_elem?-append [] v w = refl
get_elem?-append (u ∷ vs) v w = get_elem?-append vs v w

pub previous_version-append :
    (vs : List ConfigVersion) (v w : ConfigVersion) → previous_version (vs ++ v ∷ w ∷ []) ≡ some v
unfolding previous_version
previous_version-append vs v w =
    let total = length-append vs (v ∷ w ∷ []) in
    let place : length (vs ++ v ∷ w ∷ []) - 2 ≡ length vs = omega (arith, total) in
    let enough : ltb (length (vs ++ v ∷ w ∷ [])) 2 ≡ false = ground (arith, total) in
    rw enough (rw place (get_elem?-append vs v w))

-- The versions end in these two, within their limit.
pub record EndsIn (v w : ConfigVersion) (c : VersionController) : Type 0 where
  pub before : List ConfigVersion
  pub all : c.versions ≡ before ++ v ∷ w ∷ []
  pub few : length c.versions ≤ c.max_versions
  pub room : 1 < c.max_versions

-- The versions end in this one.
pub record Ends (v : ConfigVersion) (c : VersionController) : Type 0 where
  pub before : List ConfigVersion
  pub all : c.versions ≡ before ++ v ∷ []
  pub few : length c.versions ≤ c.max_versions
  pub room : 1 < c.max_versions

pub EndsIn-Ends : (v w : ConfigVersion) (c : VersionController) → EndsIn v w c → Ends w c
EndsIn-Ends v w c h = record {
  before = h.before ++ v ∷ [];
  all = h.all ∙ sym (append_assoc h.before (v ∷ []) (w ∷ []));
  few = h.few;
  room = h.room;
}

tail-append : (vs ws : List ConfigVersion) → 0 < length vs → tail (vs ++ ws) ≡ tail vs ++ ws
tail-append [] ws h = absurd (omega arith)
tail-append (v ∷ vs) ws h = refl

length-tail : (vs : List ConfigVersion) → length (tail vs) ≡ length vs - 1
length-tail [] = omega arith
length-tail (v ∷ vs) = omega arith

pub add_version-EndsIn :
    (v : ConfigVersion) (a : ApplicationConfig) (c : VersionController)
    → Ends v c
    → EndsIn v (new_version a) (add_version a c)
unfolding add_version
add_version-EndsIn v a c h =
    let grown = c.versions ++ new_version a ∷ [] in
    let joined : grown ≡ h.before ++ v ∷ new_version a ∷ [] =
      ap (λ l. l ++ new_version a ∷ []) h.all
      ∙ append_assoc h.before (v ∷ []) (new_version a ∷ []) in
    let total = length-append c.versions (new_version a ∷ []) in
    let before_total = ap length h.all ∙ length-append h.before (v ∷ []) in
    elim (Bool-cases (ltb c.max_versions (length grown))) [
      | inl over ↦
          let full : c.max_versions < length grown = ground arith in
          record {
            before = tail h.before;
            all = rw over (
                ap tail joined
                ∙ tail-append h.before (v ∷ new_version a ∷ [])
                    (omega (arith, full, total, before_total, h.room)));
            few = rw over (omega (arith, length-tail grown, total, h.few));
            room = h.room;
          }
      | inr fits ↦ record {
        before = h.before;
        all = rw fits joined;
        few = rw fits (ground arith);
        room = h.room;
      }
    ]
