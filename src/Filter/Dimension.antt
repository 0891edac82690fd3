-- ===== src/Filter/Dimension.antt =====
-- One dimension of a filter: an allowlist, a blocklist and the two `All` flags, as the filter keeps
-- them for bands, modes, sources, confidence, paths, continents, zones, DXCC codes and grids.
pub mod Commands
use go_cluster.Prelude.{
  ℕ, zero, suc, Bool, true, false, not, ◌&&◌, ◌||◌, Option, none, some, List, [], ◌∷◌, ltb,
  if◌then◌else◌, length, Eq, Bytes, list_eq, nat_eq, list_beq,
}
use go_cluster.Prelude.Map.{Map, lookup, insert, erase, IsMap}
use go_cluster.Prelude.Text.{◌=ᵇ◌, trim_space}

pub record Dimension {ℓ} (K : Type ℓ) : Type ℓ where
  pub allow : Map K Bool
  pub block : Map K Bool
  pub all : Bool
  pub block_all : Bool

abbrev pub is_empty {ℓ} : {A : Type ℓ} → List A → Bool
is_empty [] = true
is_empty (x ∷ xs) = false

-- `m[k]` of a map to Booleans: false if there is no entry.
abbrev pub truth : Option Bool → Bool
truth none = false
truth (some b) = b

-- A dimension as `NewFilter` and the `Reset` functions leave it.
abbrev pub open_dimension {ℓ} : {K : Type ℓ} → Dimension K
open_dimension = record { allow = []; block = []; all = true; block_all = false }

module _ {ℓ} {K : Type ℓ} ⦃e : Eq K⦄ where
  unfoldable pub listed : K → Map K Bool → Bool
  listed k m = truth (lookup k m)

  -- The body that `SetBand`, `SetMode`, `SetSource` and the others share.
  unfoldable pub set_key : K → Bool → Dimension K → Dimension K
  set_key k true d =
      let allow = insert k true d.allow in
      record { allow = allow; block = erase k d.block; all = is_empty allow; block_all = false }
  set_key k false d =
      let allow = erase k d.allow in
      record {
        allow = allow;
        block = insert k true d.block;
        all = is_empty allow;
        block_all = false;
      }

-- `passesStringFilter`. (The recovery of `safeTrimSpace` is never needed: trimming cannot panic.)
unfoldable pub passes_string_filter : Bytes → Dimension Bytes → Bool
unfolding listed
passes_string_filter raw d =
    let token = trim_space raw in
    if d.block_all
    then false
    else if not (is_empty d.block) && listed token d.block
    then false
    else if not d.all && is_empty d.allow
    then false
    else if not (is_empty d.allow)
    then not (token =ᵇ [] || not (listed token d.allow))
    else true

abbrev pub validated {ℓ} : {K : Type ℓ} → Option (K → Bool) → K → Bool
validated none token = true
validated (some v) token = v token

-- `passesIntFilter`; `validator` may be nil.
unfoldable pub passes_int_filter {ℓ} :
    {K : Type ℓ} ⦃e : Eq K⦄ → K → Dimension K → Option (K → Bool) → Bool
unfolding listed
passes_int_filter token d validator =
    let valid = validated validator token in
    if d.block_all
    then false
    else if not (is_empty d.block) && listed token d.block
    then false
    else if not valid
    then not (not (is_empty d.allow) || not d.all)
    else if not d.all && is_empty d.allow
    then false
    else if not (is_empty d.allow)
    then listed token d.allow
    else true
