-- ===== src/Examples/History.antt =====
-- A run of the sample broker: a request for a lease, and a sweep.
use agent_cred_broker.Prelude.{
  length, sym, subst, ◌<◌, ◌+◌, arith, ◌≡◌, refl, true, false, Option, some, none, [], ◌∷◌, String,
  lookup, insert, pos, ◌*ℤ◌, str_eq, cut_prefix, if◌then◌else◌,
}
use agent_cred_broker.Lease.{Lease, create, sweep_expired, newly_expired, mark, dead}
use agent_cred_broker.RateLimit.{new, allow, bucket_of, refill}
use agent_cred_broker.Audit.{Subject, key}
use agent_cred_broker.Audit.Emitter.{emit, envelope, next_seq, sign_line, write_line}
use agent_cred_broker.Policy.{grant_for, window_open}
use agent_cred_broker.Server.{
  Server, decoded, new_limits, read_clock, new_id, count, record_event, allow_lease,
}
use agent_cred_broker.Server.Auth.{
  Route, post_lease, route, serve, with_request_id, with_auth, check_token, admit_subject,
}
use agent_cred_broker.Server.Create.{
  clamp_ttl, clamp_upstream, upstream_expiry, create_lease, conclude, issue, count_latency,
  finish_fetch, fetch, provide, resolve, admit, authorize, read_body, handle_lease_create,
}
use agent_cred_broker.Server.Leases.{emit_expired, sweep_expired_leases}
use agent_cred_broker.Broker.History.{Reaches, Attested, serves, sweeps, start, then_step}
use agent_cred_broker.Broker.History.Runs.{usable_leases_are_signed}
use agent_cred_broker.Verifier.{split_lines, verify_streams}
use agent_cred_broker.Verifier.Written.{AreShort}
use agent_cred_broker.Verifier.Stream.{clean_report}
use agent_cred_broker.Broker.History.Stream.{run_is_verified}
use agent_cred_broker.Examples.PlainCodec.{plain, plain-IsCodec}
use agent_cred_broker.Examples.Sample.{broker, subject, source, size}

abbrev authn : String → Option Subject
authn token = if str_eq token "good" then some subject else none

abbrev wanted : Route
wanted = post_lease (decoded (record { scope = "repo"; ttl_seconds = pos 300; context = [] }))

abbrev after_request : Server
after_request = (serve plain authn size source "Bearer good" wanted (broker [])).1

abbrev after_sweep : Server
after_sweep = (sweep_expired_leases plain (pos 0) after_request).1

sample_run : Reaches plain authn size (broker []) after_sweep
unfolding lookup new_id
sample_run =
    then_step (broker []) after_request after_sweep
      (then_step (broker []) (broker []) after_request (start (broker []))
        (serves source "Bearer good" wanted (broker []) refl))
      (sweeps (pos 0) after_request)

abbrev issued_lease : Lease
issued_lease = record {
  id = "lease_00";
  subject_key = "ci/bot";
  scope = "repo";
  semantics = "revocable";
  issued_at = 63900000005000000000;
  expires_at = 63900000305000000000;
  renewable = true;
  surrendered = false;
  expired_emit = false;
}

still_there : lookup "lease_00" after_sweep.leases ≡ some issued_lease
unfolding serve with_request_id with_auth check_token admit_subject route handle_lease_create
    allow_lease read_clock allow new bucket_of refill key read_body authorize grant_for admit
    window_open clamp_ttl resolve provide fetch count_latency finish_fetch issue clamp_upstream
    upstream_expiry create_lease new_id create record_event emit envelope next_seq sign_line
    write_line conclude count lookup insert new_limits ◌*ℤ◌ sweep_expired_leases sweep_expired
    newly_expired mark dead emit_expired cut_prefix
still_there = refl

usable_leases_are_signed_example :
    (issued_lease.id ≡ "lease_00") × Attested plain issued_lease after_sweep.trail.emitter.out
usable_leases_are_signed_example =
    usable_leases_are_signed plain authn size (broker []) after_sweep refl sample_run "lease_00"
      issued_lease still_there refl

stream_written : after_sweep.trail.emitter.out ≡ 51 ∷ 70 ∷ 81 ∷ 10 ∷ []
unfolding serve with_request_id with_auth check_token admit_subject route handle_lease_create
    allow_lease read_clock allow new bucket_of refill key read_body authorize grant_for admit
    window_open clamp_ttl resolve provide fetch count_latency finish_fetch issue clamp_upstream
    upstream_expiry create_lease new_id create record_event emit envelope next_seq sign_line
    write_line conclude count lookup insert new_limits ◌*ℤ◌ sweep_expired_leases sweep_expired
    newly_expired mark dead emit_expired cut_prefix
stream_written = refl

one_line : split_lines [] after_sweep.trail.emitter.out ≡ (51 ∷ 70 ∷ 81 ∷ []) ∷ []
unfolding split_lines
one_line = rw stream_written refl

run_is_verified_example :
    verify_streams plain (after_sweep.trail.emitter.out ∷ [])
    ≡ some (clean_report (length (split_lines [] after_sweep.trail.emitter.out)))
run_is_verified_example =
    run_is_verified plain authn size (broker []) after_sweep plain-IsCodec refl (λ n. tt) sample_run
      (subst AreShort (sym one_line) (omega arith, tt))
      (subst (λ ls. 0 + length ls < 18446744073709551616) (sym one_line) (omega arith))
