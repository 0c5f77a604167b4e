-- ===== src/Broker.antt =====
-- cmd/broker/main.go: diffSorted, which names what a reload of the policy adds and removes.
pub mod Diff
pub mod Reload
pub mod Upkeep
pub mod History
use agent_cred_broker.Prelude.{
  Bool, true, false, not, Option, none, some, List, [], ◌∷◌, String, Assoc, lookup, insert,
  if◌then◌else◌,
}

-- A loop that sets m[v] = true for each v.
unfoldable pub mark_all : Assoc Bool → List String → Assoc Bool
mark_all m [] = m
mark_all m (v ∷ vs) = mark_all (insert v true m) vs

abbrev pub or_false : Option Bool → Bool
or_false none = false
or_false (some b) = b

-- Reading a key that the map lacks gives false.
abbrev pub is_marked : Assoc Bool → String → Bool
is_marked m v = or_false (lookup v m)

-- A loop that appends each v that is not marked.
unfoldable pub unmarked : Assoc Bool → List String → List String
unmarked m [] = []
unmarked m (v ∷ vs) = let rest = unmarked m vs in if not (is_marked m v) then v ∷ rest else rest

-- What is added, and what is removed.
unfoldable pub diff_sorted : List String → List String → List String × List String
diff_sorted old next = (unmarked (mark_all [] old) next, unmarked (mark_all [] next) old)
