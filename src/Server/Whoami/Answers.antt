-- ===== src/Server/Whoami/Answers.antt =====
-- internal/server/handlers.go: whoami tells a caller what it may ask for, and only that.
use agent_cred_broker.Prelude.{
  Option, none, some, sym, ◌≡◌, refl, ap, ◌∙◌, subst, inl, inr, map_option, List, [], ◌∷◌, map,
  String, lookup, Entries, Entries-lookup, str_eq, Bool-cases, Option-cases,
}
use agent_cred_broker.Time.{Duration, seconds}
use agent_cred_broker.Audit.{key}
use agent_cred_broker.Policy.{IssueWindow, Grant, Policy, grant_for}
use agent_cred_broker.Policy.Parse.{Document, Loader, fine, add_scopes, add_subjects, build, parse}
use agent_cred_broker.Policy.Parse.Valid.{bind-fine, fine-inj, faulty-ne-fine}
use agent_cred_broker.Policy.Parse.Keyed.{Keyed, add_subjects-Keyed}
use agent_cred_broker.Policy.Listing.{values, or_empty, scope_of, grants_for}
use agent_cred_broker.Policy.Listing.Sorted.{InOrder, Before, find, sort_by-InOrder, find-sort_by}
use agent_cred_broker.Server.{Server, Caller}
use agent_cred_broker.Server.Whoami.{WindowOut, GrantOut, window_out, grant_out, handle_whoami}

abbrev pub scope_name : GrantOut → String
scope_name g = g.scope

out-Before :
    (s : String) (gs : List (Grant IssueWindow))
    → Before scope_of s gs
    → Before scope_name s (map grant_out gs)
unfolding grant_out
out-Before s [] h = tt
out-Before s (g ∷ gs) h = h

out-InOrder :
    (gs : List (Grant IssueWindow)) → InOrder scope_of gs → InOrder scope_name (map grant_out gs)
unfolding grant_out
out-InOrder [] h = tt
out-InOrder (g ∷ gs) h = (out-Before g.scope gs h.0, out-InOrder gs h.1)

find-out :
    (n : String) (gs : List (Grant IssueWindow))
    → find scope_name n (map grant_out gs) ≡ map_option grant_out (find scope_of n gs)
unfolding grant_out
find-out n [] = refl
find-out n (g ∷ gs) = elim (Bool-cases (str_eq g.scope n)) [
  | inl y ↦ rw y refl
  | inr z ↦ rw (z, find-out n gs) refl
]

build-Keyed :
    (loader : Loader) (raw : String) (doc : Document) (p : Policy)
    → build loader raw doc ≡ fine p
    → Entries (λ k m. Keyed m) p.grant_by_subj
unfolding build
build-Keyed loader raw doc p h =
    let (scopes, good, rest) = bind-fine (add_scopes [] doc.scopes) _ p h in
    let (subjects, granted, made) =
      bind-fine (add_subjects loader.parse_cron scopes [] doc.subjects) _ p rest in
    subst (λ (x : Policy). Entries (λ k m. Keyed m) x.grant_by_subj) (fine-inj _ p made)
      (add_subjects-Keyed loader.parse_cron scopes [] doc.subjects subjects tt granted)

parse-Keyed :
    (loader : Loader) (raw : String) (p : Policy)
    → parse loader raw ≡ fine p
    → Entries (λ k m. Keyed m) p.grant_by_subj
unfolding parse
parse-Keyed loader raw p h = elim (Option-cases (loader.unmarshal raw)) [
  | inl e ↦ absurd (faulty-ne-fine _ p (rw (e, parse) at h))
  | inr (doc, e) ↦ build-Keyed loader raw doc p (rw (e, parse) at h)
]

-- What grants_for finds is what a lookup finds.
find-grants_for :
    (p : Policy) (k n : String)
    → Entries (λ s m. Keyed m) p.grant_by_subj
    → find scope_of n (grants_for p k) ≡ grant_for p k n
unfolding grants_for grant_for lookup
find-grants_for p k n h = elim (Option-cases (lookup k p.grant_by_subj)) [
  | inl e ↦ rw e (find-sort_by scope_of n [] tt)
  | inr (m, e) ↦
      rw e (find-sort_by scope_of n m (Entries-lookup (λ s x. Keyed x) k p.grant_by_subj m h e))
]

-- The cron text and the duration of a window, as shown and as granted.
abbrev pub shown_window : WindowOut → String × Duration
shown_window w = (w.cron, w.duration)

abbrev pub granted_window : IssueWindow → String × Duration
granted_window w = (w.cron, w.duration)

-- An entry of the list against the grant that it is about.
pub record Tells (g : Grant IssueWindow) (o : GrantOut) : Type 0 where
  pub scope : o.scope ≡ g.scope
  pub default_ttl : o.ttl_default_seconds ≡ seconds g.ttl_default
  pub longest_ttl : o.ttl_max_seconds ≡ seconds g.ttl_max
  pub renewable : o.renewable ≡ g.renewable
  pub windows : map shown_window o.issue_windows ≡ map granted_window g.issue_windows

-- A grant and an entry that tells of it, or neither.
abbrev pub Shows : Option (Grant IssueWindow) → Option GrantOut → Type 0
Shows none none = Unit
Shows (some g) (some o) = Tells g o
Shows _ _ = ⊥

windows_out : (ws : List IssueWindow) → map shown_window (map window_out ws) ≡ map granted_window ws
windows_out [] = refl
windows_out (w ∷ ws) =
    ap (λ (r : List (String × Duration)). (w.cron, w.duration) ∷ r) (windows_out ws)

grant_out-Tells : (g : Grant IssueWindow) → Tells g (grant_out g)
unfolding grant_out
grant_out-Tells g = record {
  scope = refl;
  default_ttl = refl;
  longest_ttl = refl;
  renewable = refl;
  windows = windows_out g.issue_windows;
}

out-Shows : (o : Option (Grant IssueWindow)) → Shows o (map_option grant_out o)
out-Shows none = tt
out-Shows (some g) = grant_out-Tells g

-- Under a policy that Parse accepted, whoami answers with status 200 and its caller's subject, lists
-- the grants of the caller in the order of their scopes, and finding a scope in the list gives nothing
-- if the policy in force does not grant it to this caller, and otherwise an entry with the grant's scope, its
-- ttls in seconds, whether it is renewable, and the cron text and the duration of each of its windows.
pub whoami_is_faithful :
    (loader : Loader) (raw : String) (who : Caller) (s : Server)
    → parse loader raw ≡ fine s.policy
    → ((handle_whoami who s).status ≡ 200)
      × ((handle_whoami who s).subject ≡ who.subject)
      × InOrder scope_name (handle_whoami who s).grants
      × ((n : String)
          → Shows
              (grant_for s.policy (key who.subject) n)
              (find scope_name n (handle_whoami who s).grants))
unfolding handle_whoami grants_for
whoami_is_faithful loader raw who s h =
    let k = key who.subject in
    (
      refl,
      refl,
      out-InOrder (grants_for s.policy k)
          (sort_by-InOrder scope_of (values (or_empty (lookup k s.policy.grant_by_subj)))),
      (λ n.
          subst (Shows (grant_for s.policy k n))
            (sym (
              find-out n (grants_for s.policy k)
              ∙ ap (map_option grant_out)
                  (find-grants_for s.policy k n (parse-Keyed loader raw s.policy h))))
            (out-Shows (grant_for s.policy k n))),
    )
