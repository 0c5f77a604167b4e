-- ===== src/Broker/History/Stream.antt =====
-- internal/server, cmd/broker/main.go and cmd/acb-verify/main.go together: what the verifier counts in the
-- event stream of a run of the broker.
use agent_cred_broker.Prelude.{
  ℕ, ◌+◌, ◌<◌, ◌≡◌, ◌∙◌, ap, sym, subst, Option, none, some, [], ◌∷◌, String, Assoc, length,
  if_cases, str_eq, cut_prefix,
}
use agent_cred_broker.Audit.{Subject, Source}
use agent_cred_broker.Audit.Codec.{Codec, IsCodec}
use agent_cred_broker.Policy.{Policy}
use agent_cred_broker.Policy.Watcher.{Report, quiet, reloaded, failed}
use agent_cred_broker.Verifier.{split_lines, verify_streams}
use agent_cred_broker.Verifier.Written.{run_emits, IsWhole, AreShort, lines_of}
use agent_cred_broker.Verifier.Stream.{clean_report, verify-run_emits, split_lines-run_emits}
use agent_cred_broker.Server.{Server, Caller, new_id}
use agent_cred_broker.Server.Auth.{
  Route, post_lease, renew_lease, delete_lease, get_lease, post_claims, route, serve, reject,
  admit_subject, check_token, with_auth, with_request_id,
}
use agent_cred_broker.Server.Leases.Isolation.{get_keeps}
use agent_cred_broker.Server.Progress.{Progress, Goes, point, still, and_then, on_stream}
use agent_cred_broker.Server.Progress.Creation.{handle_lease_create-Goes}
use agent_cred_broker.Server.Progress.Requests.{
  handle_lease_renew-Goes, handle_lease_surrender-Goes,
}
use agent_cred_broker.Server.Progress.Recording.{
  record_auth_failure-Records, handle_claims-Records, sweep-Goes,
}
use agent_cred_broker.Broker.Reload.{sign_report}
use agent_cred_broker.Broker.History.{
  Step, serves, sweeps, reports, Reaches, start, then_step, numbered,
}

route-Goes :
    (c : Codec) (size : Assoc String → ℕ) (r : Route) (who : Caller) (s : Server)
    → Goes c s (route c size r who s)
unfolding route
route-Goes c size (post_lease body) who s = handle_lease_create-Goes c who size body s
route-Goes c size (renew_lease id body) who s = handle_lease_renew-Goes c who id body s
route-Goes c size (delete_lease id) who s = handle_lease_surrender-Goes c who id s
route-Goes c size (get_lease id) who s =
    subst (λ t. Progress c (point s) (point t)) (sym (get_keeps c who id s)) (still c (point s))
route-Goes c size (post_claims body) who s = (handle_claims-Records c who size body s).1

module _ (c : Codec) (authn : String → Option Subject) (size : Assoc String → ℕ) where
  reject-Goes :
      (request_id : String) (source : Source) (reason title : String) (s : Server)
      → Goes c s (reject c authn request_id source reason title s)
  unfolding reject
  reject-Goes request_id source reason title s =
      (record_auth_failure-Records c request_id source reason s).1

  admit_subject-Goes :
      (request_id : String) (source : Source) (found : Option Subject) (r : Route) (s : Server)
      → Goes c s (admit_subject c authn request_id source found (route c size r) s)
  unfolding admit_subject
  admit_subject-Goes request_id source none r s = reject-Goes request_id source _ _ s
  admit_subject-Goes request_id source (some subject) r s = route-Goes c size r _ s

  check_token-Goes :
      (request_id : String) (source : Source) (token : Option String) (r : Route) (s : Server)
      → Goes c s (check_token c authn request_id source token (route c size r) s)
  unfolding check_token
  check_token-Goes request_id source none r s = reject-Goes request_id source _ _ s
  check_token-Goes request_id source (some token) r s =
      if_cases (Goes c s) (str_eq token "") _
        (admit_subject c authn request_id source (authn token) (route c size r)) s
        (λ y. reject-Goes request_id source _ _ s)
        (λ n. admit_subject-Goes request_id source (authn token) r s)

  serve-Goes :
      (source : Source) (header : String) (r : Route) (s : Server)
      → Goes c s (serve c authn size source header r s)
  unfolding serve with_request_id with_auth new_id
  serve-Goes source header r s =
      check_token-Goes _ source (cut_prefix "Bearer " header) r (numbered s)

  report-Goes :
      (why : String) (r : Report) (next : Policy) (s : Server)
      → Progress c
          (point s)
          (point (record s { policy = next; trail = sign_report c why r s.trail }))
  unfolding sign_report
  report-Goes why quiet next s = still c (point s)
  report-Goes why (reloaded old new) next s = on_stream c _ s.trail s.leases
  report-Goes why (failed retained) next s = on_stream c _ s.trail s.leases

  step-Progress : (s t : Server) → Step c authn size s t → Progress c (point s) (point t)
  step-Progress s t (serves source header r u fresh) = serve-Goes source header r u
  step-Progress s t (sweeps retain u) = sweep-Goes c retain u
  step-Progress s t (reports why r next u) = report-Goes why r next u

  run-Progress : (s t : Server) → Reaches c authn size s t → Progress c (point s) (point t)
  run-Progress s t (start u) = still c (point u)
  run-Progress s t (then_step u v w run step) =
      and_then c (point u) (point v) (point w) (run-Progress u v run) (step-Progress v w step)

  -- The verifier, run on what any run of the broker has written, counts one valid event for each line and
  -- finds no invalid one, no gap and no duplicate, whatever the requests, the sweeps and the reloads
  -- were. The codec keeps its laws, nothing was written before the run, no write stops in the middle
  -- of a line, the lines fit the scanner and the sequence numbers do not wrap around.
  pub run_is_verified :
      (s t : Server)
      → IsCodec c
      → s.trail.emitter.out ≡ []
      → ((n : ℕ) → IsWhole (s.trail.world.writing n))
      → Reaches c authn size s t
      → AreShort (split_lines [] t.trail.emitter.out)
      → s.trail.emitter.seq + length (split_lines [] t.trail.emitter.out) < 18446744073709551616
      → verify_streams c (t.trail.emitter.out ∷ [])
        ≡ some (clean_report (length (split_lines [] t.trail.emitter.out)))
  run_is_verified s t laws fresh whole run short fits =
      let p = run-Progress s t run in
      let e = s.trail.emitter in
      let all = p.whole whole in
      let out : t.trail.emitter.out ≡ (run_emits c p.calls e).out = ap (λ x. x.out) p.ran in
      let lines : split_lines [] t.trail.emitter.out ≡ lines_of c p.calls e =
        ap (split_lines []) out ∙ split_lines-run_emits c laws p.calls e fresh all in
      let short' = subst AreShort lines short in
      let fits' = subst (λ ls. e.seq + length ls < 18446744073709551616) lines fits in
      ap (λ o. verify_streams c (o ∷ [])) out
      ∙ verify-run_emits c laws p.calls e fresh all short' fits'
      ∙ ap (λ ls. some (clean_report (length ls))) (sym lines)
