-- ===== src/Policy/Parse/Keyed.antt =====
-- internal/policy/policy.go: in a policy that Parse returns, each grant stands under its own scope.
use agent_cred_broker.Prelude.{
  ◌≡◌, sym, ap, subst, Option, List, [], ◌∷◌, String, Assoc, insert, Entries, Entries-insert,
}
use agent_cred_broker.Policy.{Scope, Schedule, WindowText, IssueWindow, Grant, SubjectPolicy}
use agent_cred_broker.Policy.Parse.{
  fine, read_windows, check_grant, read_grant, add_grants, check_subject, add_subjects,
}
use agent_cred_broker.Policy.Parse.Valid.{bind-fine, fine-inj}

-- The grants of one subject.
abbrev pub Keyed : Assoc (Grant IssueWindow) → Type 0
Keyed = Entries (λ k g. g.scope ≡ k)

module _ (parse_cron : String → Option Schedule) where
  read_grant-scope :
      (scopes : Assoc Scope) (seen : Assoc (Grant IssueWindow)) (g : Grant WindowText)
      (g' : Grant IssueWindow)
      → read_grant parse_cron scopes seen g ≡ fine g'
      → g'.scope ≡ g.scope
  unfolding read_grant
  read_grant-scope scopes seen g g' h =
      let (u, checked, rest) = bind-fine (check_grant parse_cron scopes seen g) _ g' h in
      let (ws, windows, made) = bind-fine (read_windows parse_cron g.issue_windows) _ g' rest in
      ap (λ (x : Grant IssueWindow). x.scope) (sym (fine-inj _ g' made))

  add_grants-Keyed :
      (scopes : Assoc Scope) (seen : Assoc (Grant IssueWindow)) (gs : List (Grant WindowText))
      (out : List (Grant IssueWindow) × Assoc (Grant IssueWindow))
      → Keyed seen
      → add_grants parse_cron scopes seen gs ≡ fine out
      → Keyed out.1
  unfolding add_grants
  add_grants-Keyed scopes seen [] out k h = subst (λ x. Keyed x.1) (fine-inj _ out h) k
  add_grants-Keyed scopes seen (g ∷ gs) out k h =
      let (g', read, later) = bind-fine (read_grant parse_cron scopes seen g) _ out h in
      let (more, added, made) =
        bind-fine (add_grants parse_cron scopes (insert g.scope g' seen) gs) _ out later in
      subst (λ x. Keyed x.1) (fine-inj _ out made)
        (add_grants-Keyed scopes (insert g.scope g' seen) gs more
          (Entries-insert (λ n x. x.scope ≡ n) g.scope g' seen
            (read_grant-scope scopes seen g g' read) k)
          added)

  pub add_subjects-Keyed :
      (scopes : Assoc Scope) (seen : Assoc (Assoc (Grant IssueWindow)))
      (sps : List (SubjectPolicy WindowText))
      (out : List (SubjectPolicy IssueWindow) × Assoc (Assoc (Grant IssueWindow)))
      → Entries (λ k m. Keyed m) seen
      → add_subjects parse_cron scopes seen sps ≡ fine out
      → Entries (λ k m. Keyed m) out.1
  unfolding add_subjects
  add_subjects-Keyed scopes seen [] out k h =
      subst (λ x. Entries (λ n m. Keyed m) x.1) (fine-inj _ out h) k
  add_subjects-Keyed scopes seen (sp ∷ sps) out k h =
      let (u, checked, h1) = bind-fine (check_subject parse_cron seen sp) _ out h in
      let (gs, granted, h2) = bind-fine (add_grants parse_cron scopes [] sp.grants) _ out h1 in
      let (more, added, made) =
        bind-fine (add_subjects parse_cron scopes (insert sp.service_account gs.1 seen) sps) _ out
          h2 in
      subst (λ x. Entries (λ n m. Keyed m) x.1) (fine-inj _ out made)
        (add_subjects-Keyed scopes (insert sp.service_account gs.1 seen) sps more
          (Entries-insert (λ n m. Keyed m) sp.service_account gs.1 seen
            (add_grants-Keyed scopes [] sp.grants gs tt granted) k)
          added)
