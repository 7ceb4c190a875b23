-- ===== src/Common/Maps.antt =====
-- Go maps as association lists with one entry a key: reading, writing and deleting a key.
use mathlib.Core.Path.{◌≡◌}
use mathlib.Core.List.{List, [], ◌∷◌}
use mathlib.Core.Option.{Option, none, some}
use native.Mathlib.Omega.{arith}
use gopherci.Common.Tests.{Eq, ◌==◌, if◌then◌else◌}

abbrev pub Dict : Type 0 → Type 0 → Type 0
Dict K V = List (K × V)

module _ {K V : Type 0} ⦃e : Eq K⦄ where
  -- `m[key]` and whether there is such a key.
  unfoldable pub lookup : K → Dict K V → Option V
  lookup key [] = none
  lookup key ((first, value) ∷ rest) =
      let later = lookup key rest in if key == first then some value else later

  -- `m[key] = value`; a key that is there keeps its place.
  unfoldable pub insert : K → V → Dict K V → Dict K V
  insert key value [] = (key, value) ∷ []
  insert key value ((first, old) ∷ rest) =
      let changed = insert key value rest in
      if key == first then (first, value) ∷ rest else (first, old) ∷ changed

  -- `delete(m, key)`
  unfoldable pub erase : K → Dict K V → Dict K V
  erase key [] = []
  erase key ((first, value) ∷ rest) =
      let remaining = erase key rest in
      if key == first then remaining else (first, value) ∷ remaining

  pub lookup-insert :
      (written read : K) (value : V) (m : Dict K V)
      → lookup read (insert written value m)
        ≡ (if written == read then some value else lookup read m)
  unfolding lookup insert
  lookup-insert written read value [] =
      ground (arith, e.beq_iff read written, e.beq_iff written read)
  lookup-insert written read value ((first, old) ∷ rest) =
      let later = lookup-insert written read value rest in
      ground (arith, later, e.beq_iff written read, e.beq_iff written first, e.beq_iff read first)

  pub lookup-erase :
      (gone read : K) (m : Dict K V)
      → lookup read (erase gone m) ≡ (if gone == read then none else lookup read m)
  unfolding lookup erase
  lookup-erase gone read [] = ground arith
  lookup-erase gone read ((first, value) ∷ rest) =
      let later = lookup-erase gone read rest in
      ground (arith, later, e.beq_iff gone read, e.beq_iff gone first, e.beq_iff read first)
