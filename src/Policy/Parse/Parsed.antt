-- ===== src/Policy/Parse/Parsed.antt =====
-- internal/policy/policy.go: what holds of every policy that Parse returns.
use agent_cred_broker.Prelude.{
  ◌≡◌, subst, inl, inr, true, some, none-ne-some, [], String, lookup, Option-cases, bind-eq-some,
}
use agent_cred_broker.Regexp.{match_string}
use agent_cred_broker.Policy.{Scope, IssueWindow, Grant, Policy, grant_for, scope_named}
use agent_cred_broker.Policy.Patterns.{subject_key}
use agent_cred_broker.Policy.Parse.{Document, Loader, fine, add_scopes, add_subjects, build, parse}
use agent_cred_broker.Policy.Parse.Valid.{
  bind-fine, fine-inj, faulty-ne-fine, IsSound, add_scopes-ScopesSound,
}
use agent_cred_broker.Policy.Parse.Grants.{IsGrant, add_subjects-SubjectsSound}

-- A policy whose scopes and grants have passed the tests.
pub record IsValid (p : Policy) : Type 0 where
  pub scope_sound : (n : String) (s : Scope) → scope_named p n ≡ some s → (s.name ≡ n) × IsSound s
  pub grant_sound :
      (k n : String) (g : Grant IssueWindow)
      → grant_for p k n ≡ some g
      → (match_string subject_key k ≡ true) × (g.scope ≡ n) × IsGrant p.scope_by_name g

build-IsValid :
    (loader : Loader) (raw : String) (doc : Document) (p : Policy)
    → build loader raw doc ≡ fine p
    → IsValid p
unfolding build grant_for lookup
build-IsValid loader raw doc p h =
    let (scopes, good, rest) = bind-fine (add_scopes [] doc.scopes) _ p h in
    let (subjects, granted, made) =
      bind-fine (add_subjects loader.parse_cron scopes [] doc.subjects) _ p rest in
    let sound =
      add_scopes-ScopesSound [] doc.scopes scopes (λ n s e. absurd (none-ne-some s e)) good in
    let held =
      add_subjects-SubjectsSound loader.parse_cron scopes [] doc.subjects subjects
        (λ n gs e. absurd (none-ne-some gs e)) granted in
    subst IsValid (fine-inj _ p made) (record {
      scope_sound = sound;
      grant_sound = λ k n g e.
          let (gs, there, found) = bind-eq-some (lookup k subjects.1) (lookup n) e in
          let (form, all) = held k gs there in let (own, ok) = all n g found in (form, own, ok);
    })

-- Every policy that Parse returns is valid: each scope has the name that it is found by, a provider that
-- the broker knows and a reference of that provider's form; each grant stands under a well-formed subject
-- key and under its own scope, the scope exists, its ttls are positive with the default at most the
-- maximum, and its windows have a positive length.
pub parse-IsValid :
    (loader : Loader) (raw : String) (p : Policy) → parse loader raw ≡ fine p → IsValid p
unfolding parse
parse-IsValid loader raw p h = elim (Option-cases (loader.unmarshal raw)) [
  | inl e ↦ absurd (faulty-ne-fine _ p (rw (e, parse) at h))
  | inr (doc, e) ↦ build-IsValid loader raw doc p (rw (e, parse) at h)
]
