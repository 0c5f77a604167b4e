-- ===== src/Policy/Parse/Grants.antt =====
-- internal/policy/policy.go: what holds of every grant that Parse lets through.
use agent_cred_broker.Prelude.{
  ◌≡◌, ◌≢◌, refl, ◌∙◌, subst, inl, inr, true, false, not, Option, none, some, some-injective,
  none-ne-some, List, [], ◌∷◌, All, String, Assoc, lookup, insert, lookup-insert, pos, ◌≤ℤ◌, ◌<ℤ◌,
  leb_ℤ, str_eq, eq_iff, Bool-cases, else_branch, arith,
}
use agent_cred_broker.Regexp.{match_string}
use agent_cred_broker.Policy.{Scope, Schedule, WindowText, IssueWindow, Grant, SubjectPolicy}
use agent_cred_broker.Policy.Patterns.{subject_key}
use agent_cred_broker.Policy.Parse.{
  fine, faulty, read_window, schedule_of, scheduled, is_present, nonpositive_window, read_window,
  schedule_of, scheduled, is_present, nonpositive_window, read_windows, check_grant, read_grant,
  add_grants, check_subject, with_grants, add_subjects,
}
use agent_cred_broker.Policy.Parse.Valid.{bind-fine, fine-inj, faulty-ne-fine, first_fault-fine}

-- A grant that passes the tests.
pub record IsGrant (scopes : Assoc Scope) (g : Grant IssueWindow) : Type 0 where
  pub scope_exists : lookup g.scope scopes ≢ none
  pub default_positive : pos 0 <ℤ g.ttl_default
  pub default_bounded : g.ttl_default ≤ℤ g.ttl_max
  pub windows_positive : All (λ w. pos 0 <ℤ w.duration) g.issue_windows

module _ (parse_cron : String → Option Schedule) where
  read_window-positive :
      (w : WindowText) (v : IssueWindow) → read_window parse_cron w ≡ fine v → pos 0 <ℤ v.duration
  unfolding read_window
  read_window-positive w v h =
      let (sched, found, rest) = bind-fine (schedule_of parse_cron w) _ v h in
      let (longer, made) =
        else_branch (leb_ℤ w.duration (pos 0)) (faulty nonpositive_window) _ (fine v)
          (faulty-ne-fine nonpositive_window v) rest in
      subst (λ x. pos 0 <ℤ x.duration) (fine-inj _ v made) (ground arith)

  read_windows-positive :
      (ws : List WindowText) (vs : List IssueWindow)
      → read_windows parse_cron ws ≡ fine vs
      → All (λ w. pos 0 <ℤ w.duration) vs
  unfolding read_windows
  read_windows-positive [] vs h = subst (All (λ w. pos 0 <ℤ w.duration)) (fine-inj [] vs h) tt
  read_windows-positive (w ∷ ws) vs h =
      let (v, one, rest) = bind-fine (read_window parse_cron w) _ vs h in
      let (more, others, made) =
        bind-fine (read_windows parse_cron ws) (λ x. fine (v ∷ x)) vs rest in
      subst (All (λ x. pos 0 <ℤ x.duration)) (fine-inj (v ∷ more) vs made)
        (read_window-positive w v one, read_windows-positive ws more others)

  read_grant-IsGrant :
      (scopes : Assoc Scope) (seen : Assoc (Grant IssueWindow)) (g : Grant WindowText)
      (g' : Grant IssueWindow)
      → read_grant parse_cron scopes seen g ≡ fine g'
      → (g'.scope ≡ g.scope) × IsGrant scopes g'
  unfolding read_grant check_grant
  read_grant-IsGrant scopes seen g g' h =
      let (u, checked, rest) = bind-fine (check_grant parse_cron scopes seen g) _ g' h in
      let (vs, windows, made) =
        bind-fine (read_windows parse_cron g.issue_windows) (λ ws. fine (scheduled parse_cron g ws))
          g' rest in
      let t = first_fault-fine _ u checked in
      subst (λ x. (x.scope ≡ g.scope) × IsGrant scopes x)
        (fine-inj (scheduled parse_cron g vs) g' made)
        (
          refl,
          record {
            scope_exists = λ e.
                let k : not (is_present (lookup g.scope scopes)) ≡ false = t.0 in
                let k' : true ≡ false = rw e at k in cc;
            default_positive = let k = t.1.1.0 in ground arith;
            default_bounded = let k = t.1.1.1.0 in ground arith;
            windows_positive = read_windows-positive g.issue_windows vs windows;
          },
        )

  -- Every entry of the table is a grant for its scope.
  abbrev pub GrantsSound : Assoc Scope → Assoc (Grant IssueWindow) → Type 0
  GrantsSound scopes m =
      (n : String) (g : Grant IssueWindow) → lookup n m ≡ some g → (g.scope ≡ n) × IsGrant scopes g

  insert-GrantsSound :
      (scopes : Assoc Scope) (m : Assoc (Grant IssueWindow)) (k : String) (g : Grant IssueWindow)
      → GrantsSound scopes m
      → (g.scope ≡ k) × IsGrant scopes g
      → GrantsSound scopes (insert k g m)
  insert-GrantsSound scopes m k g ok new n g' h = elim (Bool-cases (str_eq k n)) [
    | inl y ↦
        let q : some g ≡ some g' = rw (lookup-insert k n g m, y) at h in
        subst (λ x. (x.scope ≡ n) × IsGrant scopes x) (some-injective g g' q)
          (new.0 ∙ (eq_iff k n).0 y, new.1)
    | inr other ↦ ok n g' (rw (lookup-insert k n g m, other) at h)
  ]

  add_grants-GrantsSound :
      (scopes : Assoc Scope) (seen : Assoc (Grant IssueWindow)) (gs : List (Grant WindowText))
      (r : List (Grant IssueWindow) × Assoc (Grant IssueWindow))
      → GrantsSound scopes seen
      → add_grants parse_cron scopes seen gs ≡ fine r
      → GrantsSound scopes r.1
  unfolding add_grants
  add_grants-GrantsSound scopes seen [] r ok h =
      subst (λ x. GrantsSound scopes x.1) (fine-inj ([], seen) r h) ok
  add_grants-GrantsSound scopes seen (g ∷ gs) r ok h =
      let (g', one, rest) = bind-fine (read_grant parse_cron scopes seen g) _ r h in
      let (more, others, made) =
        bind-fine (add_grants parse_cron scopes (insert g.scope g' seen) gs)
          (λ x. fine (g' ∷ x.0, x.1)) r rest in
      subst (λ x. GrantsSound scopes x.1) (fine-inj (g' ∷ more.0, more.1) r made)
        (add_grants-GrantsSound scopes (insert g.scope g' seen) gs more
          (insert-GrantsSound scopes seen g.scope g' ok (read_grant-IsGrant scopes seen g g' one))
          others)

  -- Every entry of the table is the grants of a well-formed subject key.
  abbrev pub SubjectsSound : Assoc Scope → Assoc (Assoc (Grant IssueWindow)) → Type 0
  SubjectsSound scopes m =
      (k : String) (gs : Assoc (Grant IssueWindow))
      → lookup k m ≡ some gs
      → (match_string subject_key k ≡ true) × GrantsSound scopes gs

  check_subject-matches :
      (seen : Assoc (Assoc (Grant IssueWindow))) (sp : SubjectPolicy WindowText) (u : Unit)
      → check_subject parse_cron seen sp ≡ fine u
      → match_string subject_key sp.service_account ≡ true
  unfolding check_subject
  check_subject-matches seen sp u h = let t = first_fault-fine _ u h in let k = t.0 in ground arith

  insert-SubjectsSound :
      (scopes : Assoc Scope) (m : Assoc (Assoc (Grant IssueWindow))) (k : String)
      (gs : Assoc (Grant IssueWindow))
      → SubjectsSound scopes m
      → match_string subject_key k ≡ true
      → GrantsSound scopes gs
      → SubjectsSound scopes (insert k gs m)
  insert-SubjectsSound scopes m k gs ok form sound n gs' h = elim (Bool-cases (str_eq k n)) [
    | inl y ↦
        let q : some gs ≡ some gs' = rw (lookup-insert k n gs m, y) at h in
        (
          subst (λ x. match_string subject_key x ≡ true) ((eq_iff k n).0 y) form,
          subst (GrantsSound scopes) (some-injective gs gs' q) sound,
        )
    | inr other ↦ ok n gs' (rw (lookup-insert k n gs m, other) at h)
  ]

  pub add_subjects-SubjectsSound :
      (scopes : Assoc Scope) (seen : Assoc (Assoc (Grant IssueWindow)))
      (sps : List (SubjectPolicy WindowText))
      (r : List (SubjectPolicy IssueWindow) × Assoc (Assoc (Grant IssueWindow)))
      → SubjectsSound scopes seen
      → add_subjects parse_cron scopes seen sps ≡ fine r
      → SubjectsSound scopes r.1
  unfolding add_subjects lookup
  add_subjects-SubjectsSound scopes seen [] r ok h =
      subst (λ x. SubjectsSound scopes x.1) (fine-inj ([], seen) r h) ok
  add_subjects-SubjectsSound scopes seen (sp ∷ sps) r ok h =
      let (u, checked, rest) = bind-fine (check_subject parse_cron seen sp) _ r h in
      let (gs, granted, rest') = bind-fine (add_grants parse_cron scopes [] sp.grants) _ r rest in
      let (more, others, made) =
        bind-fine (add_subjects parse_cron scopes (insert sp.service_account gs.1 seen) sps)
          (λ x. fine (with_grants parse_cron sp gs.0 ∷ x.0, x.1)) r rest' in
      subst (λ x. SubjectsSound scopes x.1)
        (fine-inj (with_grants parse_cron sp gs.0 ∷ more.0, more.1) r made)
        (add_subjects-SubjectsSound scopes (insert sp.service_account gs.1 seen) sps more
          (insert-SubjectsSound scopes seen sp.service_account gs.1 ok
            (check_subject-matches seen sp u checked)
            (add_grants-GrantsSound scopes [] sp.grants gs (λ n g e. absurd (none-ne-some g e))
              granted))
          others)
