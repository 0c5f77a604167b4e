-- ===== src/Server/Progress.antt =====
-- internal/server: the lease table and the event stream from one state to the next, as the parts that the
-- handlers share change them.
pub mod Creation
pub mod Requests
pub mod Recording
use agent_cred_broker.Prelude.{
  ℕ, ◌≡◌, refl, ◌∙◌, ap, sym, Bool, true, false, some, none, [], ◌++◌, take, String, append-nil,
  append_assoc, List, subst, Bool-cases, Option-cases, inl, inr, ◌∷◌,
}
use agent_cred_broker.Time.{Instant}
use agent_cred_broker.RateLimit.{allow}
use agent_cred_broker.Lease.{Store}
use agent_cred_broker.Lease.Sweep.{IsValid}
use agent_cred_broker.Audit.{Event, key}
use agent_cred_broker.Audit.Codec.{Codec, Bytes, newline}
use agent_cred_broker.Audit.Emitter.{
  Emitter, Writing, written, failed, envelope, sign_line, write_line, emit,
}
use agent_cred_broker.Verifier.Written.{Emission, run_emits, IsWhole, AllWhole}
use agent_cred_broker.Server.{
  Server, Caller, Response, Trail, Handler, record_event, read_clock, count, allow_lease,
  allow_rl_audit, rate_limited_response, audit_fail_closed,
}

-- The lease table and the emitter, with what will become of the writes.
pub record Point : Type 0 where
  pub table : Store
  pub emitter : Emitter
  pub writing : ℕ → Writing

abbrev pub point : Server → Point
point s = record { table = s.leases; emitter = s.trail.emitter; writing = s.trail.world.writing }

-- From one point to another: the emitter has served these calls, with writes of the sequence, and a well
-- formed table is well formed again.
pub record Progress (c : Codec) (p q : Point) : Type 0 where
  pub calls : List Emission
  pub ran : q.emitter ≡ run_emits c calls p.emitter
  pub whole : ((n : ℕ) → IsWhole (p.writing n)) → AllWhole calls
  pub same_writing : q.writing ≡ p.writing
  pub valid : IsValid p.table → IsValid q.table

-- The progress that a run from s makes.
abbrev pub Goes : {A : Type 0} → Codec → Server → A × Server → Type 0
Goes c s x = Progress c (point s) (point x.1)

-- Only the table changes.
pub on_table :
    (c : Codec) (p : Point) (table : Store)
    → (IsValid p.table → IsValid table)
    → Progress c p (record p { table = table })
unfolding run_emits
on_table c p table h = record {
  calls = [];
  ran = refl;
  whole = λ w. tt;
  same_writing = refl;
  valid = h;
}

pub still : (c : Codec) (p : Point) → Progress c p p
still c p = on_table c p p.table (λ v. v)

run_emits-append :
    (c : Codec) (xs ys : List Emission) (e : Emitter)
    → run_emits c (xs ++ ys) e ≡ run_emits c ys (run_emits c xs e)
unfolding run_emits
run_emits-append c [] ys e = refl
run_emits-append c (x ∷ xs) ys e = run_emits-append c xs ys _

AllWhole-append : (xs ys : List Emission) → AllWhole xs → AllWhole ys → AllWhole (xs ++ ys)
AllWhole-append [] ys h k = k
AllWhole-append (x ∷ xs) ys h k = (h.0, AllWhole-append xs ys h.1 k)

pub and_then : (c : Codec) (p q r : Point) → Progress c p q → Progress c q r → Progress c p r
and_then c p q r first next = record {
  calls = first.calls ++ next.calls;
  ran =
      next.ran
      ∙ ap (run_emits c next.calls) first.ran
      ∙ sym (run_emits-append c first.calls next.calls p.emitter);
  whole = λ w.
      AllWhole-append first.calls next.calls (first.whole w)
        (next.whole (λ n. subst (λ f. IsWhole (f n)) (sym first.same_writing) (w n)));
  same_writing = next.same_writing ∙ first.same_writing;
  valid = λ v. next.valid (first.valid v);
}

-- An event, whether or not its write fails.
pub on_stream :
    (c : Codec) (ev : Event) (t : Trail) (table : Store)
    → Progress c
        (record { table = table; emitter = t.emitter; writing = t.world.writing })
        (record {
          table = table;
          emitter = (record_event c ev t).1.emitter;
          writing = (record_event c ev t).1.world.writing;
        })
unfolding record_event run_emits
on_stream c ev t table = record {
  calls =
      record { at = t.world.clock t.world.reads; writing = t.world.writing t.world.writes; ev = ev }
      ∷ [];
  ran = refl;
  whole = λ w. (w t.world.writes, tt);
  same_writing = refl;
  valid = λ v. v;
}

write_line-appends :
    (w : Writing) (line : Bytes) (e : Emitter)
    → (more : Bytes) × ((write_line w line e).1.out ≡ e.out ++ more)
unfolding write_line
write_line-appends written line e = (line ++ newline ∷ [], refl)
write_line-appends (failed n) line e = (take n (line ++ newline ∷ []), refl)

emit-appends :
    (c : Codec) (now : Instant) (w : Writing) (ev : Event) (e : Emitter)
    → (more : Bytes) × ((emit c now w ev e).1.out ≡ e.out ++ more)
unfolding emit
emit-appends c now w ev e = elim (Option-cases (sign_line c (envelope now ev e))) [
  | inl f ↦ rw (f, emit) ([], sym (append-nil e.out))
  | inr (line, f) ↦ rw (f, emit) (write_line-appends w line e)
]

run_emits-appends :
    (c : Codec) (xs : List Emission) (e : Emitter)
    → (more : Bytes) × ((run_emits c xs e).out ≡ e.out ++ more)
unfolding run_emits
run_emits-appends c [] e = ([], sym (append-nil e.out))
run_emits-appends c (x ∷ xs) e =
    let (m, f) = emit-appends c x.at x.writing x.ev e in
    let (n, g) = run_emits-appends c xs (emit c x.at x.writing x.ev e).1 in
    (m ++ n, g ∙ ap (λ o. o ++ n) f ∙ append_assoc e.out m n)

-- The stream is what it was, or longer.
pub grown :
    (c : Codec) (p q : Point)
    → Progress c p q
    → (more : Bytes) × (q.emitter.out ≡ p.emitter.out ++ more)
grown c p q h =
    let (more, e) = run_emits-appends c h.calls p.emitter in (more, ap (λ x. x.out) h.ran ∙ e)

pub rate_limited-Goes :
    (c : Codec) (who : Caller) (endpoint title : String) (s : Server)
    → Goes c s (rate_limited_response c who endpoint title s)
unfolding rate_limited_response allow_rl_audit read_clock count
rate_limited-Goes c who endpoint title s =
    elim (Bool-cases
      (allow (key who.subject) (s.trail.world.clock s.trail.world.reads) s.limits.rl_audit).0) [
        | inl y ↦ rw y (on_stream c _ _ s.leases)
        | inr n ↦ rw n (still c (point s))
      ]
