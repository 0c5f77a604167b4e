-- ===== src/Notify/Grants.antt =====
-- internal/notify/policy.go: the policy of the notify proxy, Parse and the lookups. The YAML reader and
-- SHA-256 are the parameter `Loader`.
pub mod Valid
use agent_cred_broker.Prelude.{
  ℕ, Bool, true, false, not, ◌||◌, ◌&&◌, ◌==◌, leb, Option, none, some, List, [], ◌∷◌, String,
  Assoc, lookup, insert, str_eq, if◌then◌else◌, ◌>>=◌ as bind_option,
}
use agent_cred_broker.Regexp.{Regexp, class, plus, match_string}
use agent_cred_broker.Policy.Patterns.{subject_key}

-- KindPush, KindPersistentCreate and KindPersistentDismiss
abbrev pub kind_push : String
kind_push = "push"

abbrev pub kind_create : String
kind_create = "persistent_create"

abbrev pub kind_dismiss : String
kind_dismiss = "persistent_dismiss"

-- knownKinds
unfoldable pub known_kind : String → Bool
known_kind k = str_eq k kind_push || str_eq k kind_create || str_eq k kind_dismiss

-- haTargetPattern: [a-z0-9_]+
abbrev pub is_target_char : ℕ → Bool
is_target_char c = (leb 97 c && leb c 122) || (leb 48 c && leb c 57) || (c == 95)

unfoldable pub ha_target : Regexp
ha_target = plus (class is_target_char)

pub record Grant : Type 0 where
  pub kind : String
  pub targets : List String
  pub id_prefix : String

pub record SubjectPolicy : Type 0 where
  pub service_account : String
  pub grants : List Grant

pub record Policy : Type 0 where
  pub subjects : List SubjectPolicy
  pub hash : String
  pub by_key : Assoc (Assoc Grant)

pub record Loader : Type 0 where
  pub unmarshal : String → Option (List SubjectPolicy)
  pub hash : String → String

-- The errors of Parse, by their test.
pub data Fault : Type 0 where
  parse_policy bad_subject duplicate_subject unknown_kind duplicate_grant : Fault
  no_target bad_target no_prefix : Fault

pub data Checked (A : Type 0) : Type 0 where
  fine : A → Checked A
  faulty : Fault → Checked A

infixl 5 ◌>>=◌
abbrev pub ◌>>=◌ : {A B : Type 0} → Checked A → (A → Checked B) → Checked B
fine a >>= f = f a
faulty e >>= f = faulty e

infixl 5 ◌>>◌
abbrev ◌>>◌ : {A B : Type 0} → Checked A → Checked B → Checked B
m >> n = m >>= λ _. n

-- A test whose truth ends Parse with this error.
abbrev pub refuse : Bool → Fault → Checked (Unit {0})
refuse true e = faulty e
refuse false e = fine tt

abbrev pub is_present : {A : Type 0} → Option A → Bool
is_present none = false
is_present (some a) = true

unfoldable pub check_targets : List String → Checked (Unit {0})
check_targets [] = fine tt
check_targets (t ∷ ts) =
    refuse (not (match_string ha_target t)) bad_target >>= λ _. check_targets ts

-- A push grant needs a target, and every target is well formed.
unfoldable pub check_push : List String → Checked (Unit {0})
check_push [] = faulty no_target
check_push (t ∷ ts) = check_targets (t ∷ ts)

unfoldable pub check_kind : Grant → Checked (Unit {0})
check_kind g =
    if str_eq g.kind kind_push
    then check_push g.targets
    else if str_eq g.kind kind_create || str_eq g.kind kind_dismiss
    then refuse (str_eq g.id_prefix "") no_prefix
    else fine tt

unfoldable pub check_grant : Assoc Grant → Grant → Checked (Unit {0})
check_grant seen g = do
  refuse (not (known_kind g.kind)) unknown_kind
  refuse (is_present (lookup g.kind seen)) duplicate_grant
  check_kind g

-- The grants of one subject, by their kind.
unfoldable pub add_grants : Assoc Grant → List Grant → Checked (Assoc Grant)
add_grants seen [] = fine seen
add_grants seen (g ∷ gs) = check_grant seen g >>= λ _. add_grants (insert g.kind g seen) gs

unfoldable pub check_subject : Assoc (Assoc Grant) → SubjectPolicy → Checked (Unit {0})
check_subject seen sp = do
  refuse (not (match_string subject_key sp.service_account)) bad_subject
  refuse (is_present (lookup sp.service_account seen)) duplicate_subject

unfoldable pub add_subjects :
    Assoc (Assoc Grant) → List SubjectPolicy → Checked (Assoc (Assoc Grant))
add_subjects seen [] = fine seen
add_subjects seen (sp ∷ sps) = check_subject seen sp >>= λ _.
    add_grants [] sp.grants >>= λ grants. add_subjects (insert sp.service_account grants seen) sps

unfoldable pub build : Loader → String → List SubjectPolicy → Checked Policy
build loader raw subjects = do
  by_key ← add_subjects [] subjects
  fine (record { subjects = subjects; hash = loader.hash raw; by_key = by_key })

unfoldable pub parse : Loader → String → Checked Policy
parse loader raw = elim (loader.unmarshal raw) [
  | none ↦ faulty parse_policy
  | some subjects ↦ build loader raw subjects
]

-- Grant. A missing subject is an empty map.
unfoldable pub grant_for : Policy → String → String → Option Grant
grant_for p subject kind = bind_option (lookup subject p.by_key) (λ grants. lookup kind grants)

abbrev first_target : List String → String
first_target [] = ""
first_target (t ∷ ts) = t

abbrev pub pinned_target : Option Grant → String
pinned_target none = ""
pinned_target (some g) = first_target g.targets

-- PushTarget
unfoldable pub push_target : Policy → String → String
push_target p subject = pinned_target (grant_for p subject kind_push)
