-- ===== src/Filter/Dimension/Commands.antt =====
-- What a PASS or REJECT command does to the tokens that pass.
use go_cluster.Prelude.{
  ◌≡◌, refl, Bool, true, false, not, ◌&&◌, ◌||◌, [], ◌∷◌, arith, Eq, Bytes, list_eq, nat_eq,
}
use go_cluster.Prelude.Map.{Map, insert, erase, IsMap, lookup-insert, lookup-erase}
use go_cluster.Prelude.Text.{◌=ᵇ◌, trim_space}
use go_cluster.Filter.Dimension.{Dimension, is_empty, listed, set_key, passes_string_filter}

-- The maps of a dimension hold each key once.
pub record IsDimension {ℓ} {K : Type ℓ} ⦃e : Eq K⦄ (d : Dimension K) : Type 0 where
  pub allow_once : IsMap d.allow
  pub block_once : IsMap d.block

module _ {ℓ} {K : Type ℓ} ⦃e : Eq K⦄ where
  listed-insert :
      (k j : K) (m : Map K Bool) → listed j (insert k true m) ≡ (e.beq k j || listed j m)
  unfolding listed
  listed-insert k j m = ground (arith, lookup-insert k j true m)

  listed-erase :
      (k j : K) (m : Map K Bool) → IsMap m → listed j (erase k m) ≡ (not (e.beq k j) && listed j m)
  unfolding listed
  listed-erase k j m h = ground (arith, lookup-erase k j m h)

  insert-not-empty : (k : K) (v : Bool) (m : Map K Bool) → is_empty (insert k v m) ≡ false
  insert-not-empty k v [] = refl
  insert-not-empty k v ((j, w) ∷ m) = ground arith

  listed-empty : (k : K) (m : Map K Bool) → is_empty m ≡ true → listed k m ≡ false
  unfolding listed
  listed-empty k [] h = refl
  listed-empty k (x ∷ m) h = cc

module _ (d : Dimension Bytes) (k j : Bytes) (v : IsDimension d) (trimmed : trim_space j ≡ j)
    (named : (j =ᵇ []) ≡ false) where
  -- After PASS k a trimmed, non-empty token j passes a dimension whose maps hold each key once
  -- exactly if it is k, or was on the allowlist and not blocked.
  pub passes_string_filter-pass :
      passes_string_filter j (set_key k true d)
      ≡ (k =ᵇ j || (listed j d.allow && not (listed j d.block)))
  unfolding passes_string_filter set_key
  passes_string_filter-pass = ground (
    arith,
    trimmed,
    named,
    insert-not-empty k true d.allow,
    listed-insert k j d.allow,
    listed-erase k j d.block v.block_once,
    listed-empty j (erase k d.block),
  )

  -- After REJECT k a trimmed, non-empty token j passes a dimension whose maps hold each key
  -- once exactly if it is not k, is not blocked, and either was on the allowlist or nothing but
  -- k was on it.
  pub passes_string_filter-reject :
      passes_string_filter j (set_key k false d)
      ≡ (not (k =ᵇ j) && not (listed j d.block) && (listed j d.allow || is_empty (erase k d.allow)))
  unfolding passes_string_filter set_key
  passes_string_filter-reject = ground (
    arith,
    trimmed,
    named,
    insert-not-empty k true d.block,
    listed-insert k j d.block,
    listed-erase k j d.allow v.allow_once,
    listed-empty j (erase k d.allow),
  )
