-- ===== src/Examples/Policies.antt =====
-- The sample policy, and issue windows of a schedule that fires every hour or never.
use agent_cred_broker.Prelude.{
  ◌-◌, ◌≤◌, ◌<◌, ◌≡◌, ◌↔◌, refl, true, pos, arith, ltb, if◌then◌else◌, List, [], ◌∷◌, Option, none,
  some, String, str_eq, lookup, insert,
}
use agent_cred_broker.Time.{Instant}
use agent_cred_broker.Policy.{IssueWindow, Schedule, open_at}
use agent_cred_broker.Policy.Windows.{IsSchedule, open_at_iff, open_at_exhausted}
use agent_cred_broker.Policy.Parse.Parsed.{IsValid, parse-IsValid}
use agent_cred_broker.Policy.Parse.{
  Loader, parse, build, add_scopes, check_scope, first_fault, known_provider, all_token,
  read_windows, check_grant, read_grant, add_grants, check_subject, add_subjects,
}
use agent_cred_broker.Policy.Patterns.{installation_ref, permissions, subject_key}
use agent_cred_broker.Regexp.{match_string, matches, deriv, nullable}
use agent_cred_broker.Policy.Watcher.{Watcher, new_store, watch}
use agent_cred_broker.Policy.Watcher.Reload.{latest, latest_policy_in_force}
use agent_cred_broker.Examples.Sample.{document, loader, policy, parsed}

parse-IsValid_example : IsValid policy
parse-IsValid_example = parse-IsValid loader "" policy parsed

-- An expression that fires once, at the instant 1000.
abbrev Once : Instant → Type 0
Once f = f ≡ 1000

abbrev once : Schedule
once t = if ltb t 1000 then 1000 else 0

once-IsSchedule : IsSchedule Once once
once-IsSchedule = record {
  found = λ t live. ground arith;
  first = λ t f live fires late. ground arith;
}

abbrev window : IssueWindow
window = record { cron = "once"; duration = pos 50; sched = once }

open_at_iff_example :
    (open_at window 1020 ≡ true) ↔ ((f : Instant) × Once f × (1020 - 50 < f) × (f ≤ 1020))
open_at_iff_example =
    open_at_iff Once window 50 1020 once-IsSchedule refl (omega arith) (λ x. omega arith)

-- Long after its only fire the window is open.
open_at_exhausted_example : open_at window 9000 ≡ true
open_at_exhausted_example =
    open_at_exhausted Once window 50 9000 once-IsSchedule refl (omega arith) (λ f e. omega arith)

-- A loader whose file is broken when its text is "bad", and whose digest is the text.
abbrev live_loader : Loader
live_loader = record loader {
  unmarshal = λ raw. if str_eq raw "bad" then none else some document;
  hash = λ raw. raw;
}

abbrev started : Watcher
started = record { current = record policy { hash = "v1" }; last_sum = "v1" }

starts : new_store live_loader "v1" ≡ some started
unfolding new_store parse build add_scopes check_scope first_fault known_provider all_token
    read_windows check_grant read_grant add_grants check_subject add_subjects installation_ref
    permissions subject_key match_string matches deriv nullable lookup insert
starts = refl

abbrev readings : List (Option String)
readings = some "v2" ∷ none ∷ some "bad" ∷ some "bad" ∷ []

latest_policy_in_force_example :
    (watch live_loader readings started).current
    ≡ latest live_loader (record policy { hash = "v1" }) readings
latest_policy_in_force_example =
    latest_policy_in_force (λ t. Unit) live_loader "v1" readings started (λ a b k l e. e) tt
      (tt, (tt, (tt, (tt, tt)))) starts
