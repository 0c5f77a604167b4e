-- ===== src/Policy/Listing.antt =====
-- internal/policy/policy.go: GrantsFor, SubjectKeys and ScopeNames, which list what a policy holds in the
-- order of its names. Go compares texts by their bytes, in UTF-8 the order of their code points.
pub mod Sorted
use Prim.Native.Char.{code}
use agent_cred_broker.Prelude.{
  ℕ, Bool, true, false, ◌==◌, ltb, Option, none, some, List, [], ◌∷◌, map, String, Assoc, lookup,
  if◌then◌else◌,
}
use agent_cred_broker.Policy.{Policy, IssueWindow, Grant}

-- Text s is not after t.
unfoldable pub text_leb : String → String → Bool
text_leb String.[] t = true
text_leb (String.◌∷◌ c s) String.[] = false
text_leb (String.◌∷◌ c s) (String.◌∷◌ d t) =
    let rest = text_leb s t in
    if ltb (code c) (code d) then true else if code c == code d then rest else false

module _ {A : Type 0} (name : A → String) where
  unfoldable pub put_in_order : A → List A → List A
  put_in_order x [] = x ∷ []
  put_in_order x (y ∷ ys) =
      let rest = put_in_order x ys in if text_leb (name x) (name y) then x ∷ y ∷ ys else y ∷ rest

  -- sort.Slice by the names, and sort.Strings
  unfoldable pub sort_by : List A → List A
  sort_by [] = []
  sort_by (x ∷ xs) = put_in_order x (sort_by xs)

-- The values and the keys of a map, in the order of a range over it.
abbrev pub values : {V : Type 0} → Assoc V → List V
values [] = []
values ((k, v) ∷ m) = v ∷ values m

abbrev pub keys : {V : Type 0} → Assoc V → List String
keys [] = []
keys ((k, v) ∷ m) = k ∷ keys m

-- Reading a subject that the map lacks gives an empty map.
abbrev pub or_empty : {V : Type 0} → Option (Assoc V) → Assoc V
or_empty none = []
or_empty (some m) = m

abbrev pub scope_of : Grant IssueWindow → String
scope_of g = g.scope

abbrev pub itself : String → String
itself s = s

-- GrantsFor
unfoldable pub grants_for : Policy → String → List (Grant IssueWindow)
grants_for p subject_key = sort_by scope_of (values (or_empty (lookup subject_key p.grant_by_subj)))

-- SubjectKeys
unfoldable pub subject_keys : Policy → List String
subject_keys p = sort_by itself (keys p.grant_by_subj)

-- ScopeNames
unfoldable pub scope_names : Policy → List String
scope_names p = sort_by itself (keys p.scope_by_name)
