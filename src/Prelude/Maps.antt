-- ===== src/Prelude/Maps.antt =====
-- A Go map with string keys: an association list that holds a key at most once, in the order in
-- which a `range` over it goes (Go leaves that order open, and so do the theorems).
use Prim.Native.String.{String}
use mathlib.Core.Path.{◌≡◌, refl, subst, subst₂}
use mathlib.Core.Logic.{◌≢◌, inl, inr}
use mathlib.Core.Bool.{false}
use mathlib.Core.Option
use mathlib.Core.Option.{Option, none, some}
use mathlib.Core.List.{List, [], ◌∷◌}
use native.Mathlib.Omega.{arith}
use text.Mathlib.Text.{◌==◌, ◌==◌ as str_eq}
use text.Mathlib.TextEquality.{eq_iff}
use text.Mathlib.TextPositions.{eq_refl}
use agent_cred_broker.Prelude.Tests.{if◌then◌else◌, Bool-cases}

abbrev pub Assoc {ℓ} : Type ℓ → Type ℓ
Assoc V = List (String × V)

module _ {ℓ} {V : Type ℓ} where
  -- m[key] = value, in the place that the key has.
  unfoldable pub insert : String → V → Assoc V → Assoc V
  insert key value [] = (key, value) ∷ []
  insert key value (entry ∷ rest) =
      let later = insert key value rest in
      if entry.0 == key then (key, value) ∷ rest else entry ∷ later

  -- m[key]
  unfoldable pub lookup : String → Assoc V → Option V
  lookup key [] = none
  lookup key (entry ∷ rest) =
      let later = lookup key rest in if entry.0 == key then some entry.1 else later

  -- delete(m, k)
  unfoldable pub delete : String → Assoc V → Assoc V
  delete k [] = []
  delete k ((j, v) ∷ m) = let rest = delete k m in if j == k then rest else (j, v) ∷ rest

  -- A write through the pointer m[k].
  unfoldable pub update : String → (V → V) → Assoc V → Assoc V
  update k f [] = []
  update k f ((j, v) ∷ m) = if j == k then (j, f v) ∷ m else (j, v) ∷ update k f m

  -- What is read after a write.
  pub lookup-insert :
      (key asked : String) (value : V) (m : Assoc V)
      → lookup asked (insert key value m) ≡ (if key == asked then some value else lookup asked m)
  unfolding insert lookup
  lookup-insert key asked value [] = refl
  lookup-insert key asked value (entry ∷ rest) =
      let ih = lookup-insert key asked value rest in
      ground (arith, ih, eq_iff entry.0 asked, eq_iff entry.0 key, eq_iff key asked)

  pub lookup-delete :
      (k j : String) (m : Assoc V) → lookup j (delete k m) ≡ (if k == j then none else lookup j m)
  unfolding lookup delete
  lookup-delete k j [] = ground arith
  lookup-delete k j ((i, w) ∷ m) =
      ground (arith, eq_iff k j, eq_iff i k, eq_iff i j, lookup-delete k j m)

  pub lookup-update :
      (k j : String) (f : V → V) (m : Assoc V)
      → lookup j (update k f m) ≡ (if k == j then Option.map f (lookup j m) else lookup j m)
  unfolding lookup update
  lookup-update k j f [] = ground arith
  lookup-update k j f ((i, w) ∷ m) =
      ground (arith, eq_iff k j, eq_iff i k, eq_iff i j, lookup-update k j f m)

  pub lookup-insert_self : (k : String) (v : V) (m : Assoc V) → lookup k (insert k v m) ≡ some v
  lookup-insert_self k v m = simp (lookup-insert, eq_refl)

  pub lookup-delete_self : (k : String) (m : Assoc V) → lookup k (delete k m) ≡ none
  lookup-delete_self k m = simp (lookup-delete, eq_refl)

  -- Taking out a key that was put in under a fresh name gives the map back.
  pub lookup-delete-insert :
      (k j : String) (v : V) (m : Assoc V)
      → lookup k m ≡ none
      → lookup j (delete k (insert k v m)) ≡ lookup j m
  lookup-delete-insert k j v m fresh =
      ground (arith, lookup-delete k j (insert k v m), lookup-insert k j v m, eq_iff k j)

pub str_ne : (a b : String) → a ≢ b → (a == b) ≡ false
str_ne a b h = ground (arith, eq_iff a b)

module _ {ℓ} {V : Type ℓ} where
  -- No key stands twice.
  abbrev pub Unique : Assoc V → Type ℓ
  Unique [] = Unit
  Unique ((k, v) ∷ m) = (lookup k m ≡ none) × Unique m

  lookup-insert-none :
      (k j : String) (v : V) (m : Assoc V)
      → str_eq j k ≡ false
      → lookup k m ≡ none
      → lookup k (insert j v m) ≡ none
  lookup-insert-none k j v m ne e = ground (arith, lookup-insert j k v m)

  pub Unique-insert : (k : String) (v : V) (m : Assoc V) → Unique m → Unique (insert k v m)
  unfolding insert lookup
  Unique-insert k v [] u = (refl, tt)
  Unique-insert k v ((j, w) ∷ m) u = elim (Bool-cases (str_eq j k)) [
    | inl same ↦
        rw (same, insert)
          (let e : lookup k m ≡ none = subst (λ i. lookup i m ≡ none) ((eq_iff j k).0 same) u.0 in
            (e, u.1))
    | inr ne ↦
        rw (ne, insert)
          (
            lookup-insert-none j k v m (ground (arith, eq_iff j k, eq_iff k j)) u.0,
            Unique-insert k v m u.1,
          )
  ]

  lookup-delete-none :
      (k j : String) (m : Assoc V) → lookup k m ≡ none → lookup k (delete j m) ≡ none
  lookup-delete-none k j m e = ground (arith, lookup-delete j k m)

  pub Unique-delete : (k : String) (m : Assoc V) → Unique m → Unique (delete k m)
  unfolding delete
  Unique-delete k [] u = tt
  Unique-delete k ((j, w) ∷ m) u = ground (arith, Unique-delete k m u.1, lookup-delete-none j k m)

module _ {ℓ κ} {V : Type ℓ} where
  -- Every entry has the property.
  abbrev pub Entries : (String → V → Type κ) → Assoc V → Type κ
  Entries P [] = Unit
  Entries P ((k, v) ∷ m) = P k v × Entries P m

  pub Entries-insert :
      (P : String → V → Type κ) (k : String) (v : V) (m : Assoc V)
      → P k v
      → Entries P m
      → Entries P (insert k v m)
  unfolding insert
  Entries-insert P k v [] p h = (p, tt)
  Entries-insert P k v ((j, w) ∷ m) p h = elim (Bool-cases (str_eq j k)) [
    | inl same ↦ rw (same, insert) (p, h.1)
    | inr ne ↦ rw (ne, insert) (h.0, Entries-insert P k v m p h.1)
  ]

  pub Entries-delete :
      (P : String → V → Type κ) (k : String) (m : Assoc V) → Entries P m → Entries P (delete k m)
  unfolding delete
  Entries-delete P k [] h = tt
  Entries-delete P k ((j, w) ∷ m) h = elim (Bool-cases (str_eq j k)) [
    | inl same ↦ rw (same, delete) (Entries-delete P k m h.1)
    | inr ne ↦ rw (ne, delete) (h.0, Entries-delete P k m h.1)
  ]

  pub Entries-lookup :
      (P : String → V → Type κ) (k : String) (m : Assoc V) (v : V)
      → Entries P m
      → lookup k m ≡ some v
      → P k v
  unfolding lookup
  Entries-lookup P k [] v h e = cc
  Entries-lookup P k ((j, w) ∷ m) v h e = elim (Bool-cases (str_eq j k)) [
    | inl same ↦
        let e' : some w ≡ some v = rw (same, lookup) at e in
        let e'' : w ≡ v = cc in subst₂ P ((eq_iff j k).0 same) e'' h.0
    | inr ne ↦ Entries-lookup P k m v h.1 (rw (ne, lookup) at e)
  ]
