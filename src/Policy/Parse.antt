-- ===== src/Policy/Parse.antt =====
-- internal/policy/policy.go: Parse. The YAML reader, with the durations that it decodes, SHA-256 and the
-- cron parser are the parameter `Loader`.
pub mod Valid
pub mod Grants
pub mod Parsed
pub mod Keyed
use agent_cred_broker.Prelude.{
  ℕ, ◌≡◌, Bool, true, false, not, ◌||◌, ◌&&◌, Option, none, some, List, [], ◌∷◌, String, Assoc,
  lookup, insert, ℤ, pos, leb_ℤ, ltb_ℤ, str_eq, if◌then◌else◌,
}
use agent_cred_broker.Time.{Duration}
use agent_cred_broker.Policy.{
  Scope, Schedule, WindowText, IssueWindow, Grant, SubjectPolicy, Policy,
}
use agent_cred_broker.Policy.Patterns.{
  op_ref, installation_ref, permissions, repositories, subject_key,
}
use agent_cred_broker.Regexp.{match_string}

-- What the YAML file holds.
pub record Document : Type 0 where
  pub scopes : List Scope
  pub subjects : List (SubjectPolicy WindowText)

pub record Loader : Type 0 where
  pub unmarshal : String → Option Document
  pub hash : String → String
  pub parse_cron : String → Option Schedule

-- The errors of Parse, by their test.
pub data Fault : Type 0 where
  parse_policy missing_name duplicate_scope unknown_provider no_fields bad_op_ref bad_installation :
      Fault
  bad_permissions bad_repositories bad_field bad_subject duplicate_subject unknown_scope : Fault
  duplicate_grant nonpositive_ttl default_exceeds_max bad_cron nonpositive_window : Fault

pub data Checked {ℓ} (A : Type ℓ) : Type ℓ where
  fine : A → Checked A
  faulty : Fault → Checked A

infixl 5 ◌>>=◌
abbrev pub ◌>>=◌ {ℓ κ} : {A : Type ℓ} {B : Type κ} → Checked A → (A → Checked B) → Checked B
fine a >>= f = f a
faulty e >>= f = faulty e

-- Tests in their order: the first that is true ends Parse with its error.
unfoldable pub first_fault : List (Bool × Fault) → Checked (Unit {0})
first_fault [] = fine tt
first_fault ((b, f) ∷ ts) = let rest = first_fault ts in if b then faulty f else rest

abbrev is_present {ℓ} : {A : Type ℓ} → Option A → Bool
is_present none = false
is_present (some a) = true

-- KnownProviders
unfoldable pub known_provider : String → Bool
known_provider p = str_eq p "onepassword-connect" || str_eq p "github-app"

-- Reading a key that a map of strings lacks gives "".
abbrev pub param : String → Assoc String → String
param k m = elim (lookup k m) [ none ↦ "" | some v ↦ v ]

unfoldable pub all_token : Assoc String → Bool
all_token [] = true
all_token ((field, key) ∷ m) = str_eq key "token" && all_token m

-- The tests of a reference, by the provider.
abbrev op_tests : Scope → List (Bool × Fault)
op_tests s = (not (match_string op_ref s.ref), bad_op_ref) ∷ []

abbrev github_tests : Scope → List (Bool × Fault)
github_tests s =
    let repos = param "repositories" s.params in
    (not (match_string installation_ref s.ref), bad_installation)
    ∷ (not (match_string permissions (param "permissions" s.params)), bad_permissions)
    ∷ (not (str_eq repos "") && not (match_string repositories repos), bad_repositories)
    ∷ (not (all_token s.fields), bad_field)
    ∷ []

abbrev is_empty : Assoc String → Bool
is_empty [] = true
is_empty (kv ∷ m) = false

-- The tests of one scope, against the scopes before it.
unfoldable pub check_scope : Assoc Scope → Scope → Checked (Unit {0})
check_scope seen s = first_fault (
    (str_eq s.name "", missing_name)
    ∷ (is_present (lookup s.name seen), duplicate_scope)
    ∷ (not (known_provider s.provider), unknown_provider)
    ∷ (is_empty s.fields, no_fields)
    ∷ (if str_eq s.provider "onepassword-connect" then op_tests s else github_tests s))

unfoldable pub add_scopes : Assoc Scope → List Scope → Checked (Assoc Scope)
add_scopes seen [] = fine seen
add_scopes seen (s ∷ ss) =
    let rest = add_scopes (insert s.name s seen) ss in check_scope seen s >>= λ _. rest

module _ (parse_cron : String → Option Schedule) where
  abbrev pub schedule_of : WindowText → Checked Schedule
  schedule_of w = elim (parse_cron w.cron) [ none ↦ faulty bad_cron | some sched ↦ fine sched ]

  unfoldable pub read_window : WindowText → Checked IssueWindow
  read_window w = do
    sched ← schedule_of w
    if leb_ℤ w.duration (pos 0)
        then faulty nonpositive_window
        else fine (record { cron = w.cron; duration = w.duration; sched = sched })

  unfoldable pub read_windows : List WindowText → Checked (List IssueWindow)
  read_windows [] = fine []
  read_windows (w ∷ ws) =
      let rest = read_windows ws in read_window w >>= λ v. rest >>= λ vs. fine (v ∷ vs)

  abbrev pub scheduled : Grant WindowText → List IssueWindow → Grant IssueWindow
  scheduled g windows = record {
    scope = g.scope;
    ttl_default = g.ttl_default;
    ttl_max = g.ttl_max;
    renewable = g.renewable;
    issue_windows = windows;
  }

  -- The tests of one grant, against the scopes and the grants of the subject before it.
  unfoldable pub check_grant :
      Assoc Scope → Assoc (Grant IssueWindow) → Grant WindowText → Checked (Unit {0})
  check_grant scopes seen g = first_fault (
      (not (is_present (lookup g.scope scopes)), unknown_scope)
      ∷ (is_present (lookup g.scope seen), duplicate_grant)
      ∷ (leb_ℤ g.ttl_default (pos 0) || leb_ℤ g.ttl_max (pos 0), nonpositive_ttl)
      ∷ (ltb_ℤ g.ttl_max g.ttl_default, default_exceeds_max)
      ∷ [])

  unfoldable pub read_grant :
      Assoc Scope → Assoc (Grant IssueWindow) → Grant WindowText → Checked (Grant IssueWindow)
  read_grant scopes seen g = check_grant scopes seen g >>= λ _.
      read_windows g.issue_windows >>= λ ws. fine (scheduled g ws)

  -- The grants of a subject, as a list and by their scope.
  unfoldable pub add_grants :
      Assoc Scope
      → Assoc (Grant IssueWindow)
      → List (Grant WindowText)
      → Checked (List (Grant IssueWindow) × Assoc (Grant IssueWindow))
  add_grants scopes seen [] = fine ([], seen)
  add_grants scopes seen (g ∷ gs) = read_grant scopes seen g >>= λ g'.
      add_grants scopes (insert g.scope g' seen) gs >>= λ rest. fine (g' ∷ rest.0, rest.1)

  unfoldable pub check_subject :
      Assoc (Assoc (Grant IssueWindow)) → SubjectPolicy WindowText → Checked (Unit {0})
  check_subject seen sp = first_fault (
      (not (match_string subject_key sp.service_account), bad_subject)
      ∷ (is_present (lookup sp.service_account seen), duplicate_subject)
      ∷ [])

  abbrev pub with_grants :
      SubjectPolicy WindowText → List (Grant IssueWindow) → SubjectPolicy IssueWindow
  with_grants sp grants = record {
    service_account = sp.service_account;
    grants = grants;
    claim_bytes_per_day = sp.claim_bytes_per_day;
  }

  unfoldable pub add_subjects :
      Assoc Scope
      → Assoc (Assoc (Grant IssueWindow))
      → List (SubjectPolicy WindowText)
      → Checked (List (SubjectPolicy IssueWindow) × Assoc (Assoc (Grant IssueWindow)))
  add_subjects scopes seen [] = fine ([], seen)
  add_subjects scopes seen (sp ∷ sps) = check_subject seen sp >>= λ _.
      add_grants scopes [] sp.grants >>= λ gs.
      add_subjects scopes (insert sp.service_account gs.1 seen) sps >>= λ rest.
      fine (with_grants sp gs.0 ∷ rest.0, rest.1)

unfoldable pub build : Loader → String → Document → Checked Policy
build loader raw doc = do
  scopes ← add_scopes [] doc.scopes
  subjects ← add_subjects loader.parse_cron scopes [] doc.subjects
  fine (record {
    scopes = doc.scopes;
    subjects = subjects.0;
    hash = loader.hash raw;
    scope_by_name = scopes;
    grant_by_subj = subjects.1;
  })

unfoldable pub parse : Loader → String → Checked Policy
unfolding build
parse loader raw = elim (loader.unmarshal raw) [
  | none ↦ faulty parse_policy
  | some doc ↦ build loader raw doc
]
