-- ===== src/Broker/History/Backing.antt =====
-- internal/server/handlers.go: the lease table of the broker against its event stream, after each handler.
use agent_cred_broker.Prelude.{
  ◌≡◌, refl, ◌∙◌, ap, sym, subst, ◌⊎◌, inl, inr, true, some, [], ◌∷◌, ◌++◌, String, ℤ, lookup,
  Bool-cases, str_eq, eq_iff, append-nil, append_assoc, arith, if◌then◌else◌,
}
use agent_cred_broker.Time.{Instant}
use agent_cred_broker.Lease.{Lease, Store, newly_expired, mark}
use agent_cred_broker.Lease.Outcomes.{extended}
use agent_cred_broker.Lease.Sweep.{IsValid}
use agent_cred_broker.Audit.{Event, key}
use agent_cred_broker.Audit.Codec.{Codec, Bytes, newline}
use agent_cred_broker.Audit.Emitter.{Emitter, envelope, sign_line}
use agent_cred_broker.Audit.Emitter.Signed.{wrote}
use agent_cred_broker.Policy.{Policy}
use agent_cred_broker.Server.{Server, Caller, Response, Body}
use agent_cred_broker.Server.Auth.{}
use agent_cred_broker.Server.Create.{LeaseRequest}
use agent_cred_broker.Server.Create.Issue
use agent_cred_broker.Server.Create.Issue.{Issued, IsFresh}
use agent_cred_broker.Server.Leases.{}
use agent_cred_broker.Server.Leases.Renewal
use agent_cred_broker.Server.Leases.Renewal.{handle_lease_renew-Ends}
use agent_cred_broker.Server.Leases.Surrender
use agent_cred_broker.Server.Leases.Surrender.{handle_lease_surrender-Ends}
use agent_cred_broker.Server.Progress.{grown, point, Goes}
use agent_cred_broker.Server.Progress.Requests.{}
use agent_cred_broker.Server.Progress.Recording.{}
use agent_cred_broker.Server.Events.{Announces}
use agent_cred_broker.Broker.History.{Announces, Attested}

Attested-grows :
    (c : Codec) (l : Lease) (out more out' : Bytes)
    → out' ≡ out ++ more
    → Attested c l out
    → Attested c l out'
Attested-grows c l out more out' e a = record {
  event = a.event;
  announces = a.announces;
  line = a.line;
  signed = a.signed;
  before = a.before;
  after = a.after ++ more;
  place =
      e
      ∙ ap (λ x. x ++ more) a.place
      ∙ append_assoc a.before ((a.line ++ newline ∷ []) ++ a.after) more
      ∙ ap (λ x. a.before ++ x) (append_assoc (a.line ++ newline ∷ []) a.after more);
}

-- The event was written last.
Attested-last :
    (c : Codec) (l : Lease) (ev : Event) (line : Bytes) (e e' : Emitter)
    → Announces l ev
    → sign_line c ev ≡ some line
    → e' ≡ wrote line e
    → Attested c l e'.out
Attested-last c l ev line e e' a signed put = record {
  event = ev;
  announces = a;
  line = line;
  signed = signed;
  before = e.out;
  after = [];
  place = ap (λ x. x.out) put ∙ ap (λ x. e.out ++ x) (sym (append-nil (line ++ newline ∷ [])));
}

Attested-mark :
    (c : Codec) (now : Instant) (l : Lease) (out : Bytes)
    → Attested c l out
    → Attested c (mark now l) out
unfolding mark
Attested-mark c now l out a = elim (Bool-cases (newly_expired now l)) [
  | inl y ↦
      rw (y, mark)
        (record {
          event = a.event;
          announces = record {
            kind = a.announces.kind;
            holder = a.announces.holder;
            scope = a.announces.scope;
            names = a.announces.names;
            ends = a.announces.ends;
          };
          line = a.line;
          signed = a.signed;
          before = a.before;
          after = a.after;
          place = a.place;
        })
  | inr n ↦ rw (n, mark) a
]

-- A lease that cannot be used any more, or that is in the stream.
abbrev pub Backed : Codec → Lease → Bytes → Type 0
Backed c l out = (l.surrendered ≡ true) ⊎ Attested c l out

-- The table is well formed and each of its leases is backed.
pub record Safe (c : Codec) (s : Server) : Type 0 where
  pub table : IsValid s.leases
  pub backed :
      (j : String) (l : Lease) → lookup j s.leases ≡ some l → Backed c l s.trail.emitter.out

-- Each lease after a run was there before, or is backed anew.
abbrev pub Renews : {A : Type 0} → Codec → Server → A × Server → Type 0
Renews c s x =
    (j : String) (l : Lease)
    → lookup j x.1.leases ≡ some l
    → (lookup j s.leases ≡ some l) ⊎ Backed c l x.1.trail.emitter.out

-- What is backed stays so when the stream grows.
pub Backed-grows :
    (c : Codec) (l : Lease) (out more out' : Bytes)
    → out' ≡ out ++ more
    → Backed c l out
    → Backed c l out'
Backed-grows c l out more out' e (inl over) = inl over
Backed-grows c l out more out' e (inr a) = inr (Attested-grows c l out more out' e a)

pub Backed-mark :
    (c : Codec) (now : Instant) (l : Lease) (out : Bytes)
    → Backed c l out
    → Backed c (mark now l) out
unfolding mark
Backed-mark c now l out (inl over) = inl (ground (arith, over))
Backed-mark c now l out (inr a) = inr (Attested-mark c now l out a)

pub advance :
    {A : Type 0} (c : Codec) (s : Server) (x : A × Server)
    → Goes c s x
    → Renews c s x
    → Safe c s
    → Safe c x.1
advance c s x goes new safe = record {
  table = goes.valid safe.table;
  backed = λ j l h. elim (new j l h) [
    | inl old ↦
        (let (more, e) = grown c (point s) (point x.1) goes in
          Backed-grows c l _ more _ e (safe.backed j l old))
    | inr is ↦ is
  ];
}

pub keeps :
    {A : Type 0} (c : Codec) (s : Server) (x : A × Server) → x.1.leases ≡ s.leases → Renews c s x
keeps c s x same j l h = inl (sym (ap (lookup j) same) ∙ h)

pub some-inj : {A : Type 0} (a b : A) → some a ≡ some b → a ≡ b
some-inj a b h = cc

-- A lease of the table after one entry was put: it was there, or it is the new one.
at_entry :
    (id j : String) (k l : Lease) (leases leases' : Store)
    → lookup j leases' ≡ (if str_eq id j then some k else lookup j leases)
    → lookup j leases' ≡ some l
    → (lookup j leases ≡ some l) ⊎ (k ≡ l)
at_entry id j k l leases leases' e h = elim (Bool-cases (str_eq id j)) [
  | inl y ↦ inr (some-inj k l (sym (rw y at e) ∙ h))
  | inr n ↦ inl (sym (rw n at e) ∙ h)
]

module _ (c : Codec) (who : Caller) where
  pub created :
      (req : LeaseRequest) (b : Issue.Scene) (s : Server) (x : Response × Server)
      → b.leases ≡ s.leases
      → Issue.Ending c who req b x
      → Renews c s x
  unfolding lookup envelope
  created req b s x same_leases (Issue.issued l ttl upstream secret s' made) j l' h =
      elim (at_entry l.id j l l' s.leases s'.leases
        (made.stored j ∙ ap (λ m. if str_eq l.id j then some l else lookup j m) same_leases) h) [
          | inl old ↦ inl old
          | inr same ↦ inr (
              inr (
                subst (λ k. Attested c k s'.trail.emitter.out) same
                  (Attested-last c l _ made.line b.emitter s'.trail.emitter made.announced
                    made.signed made.written)))
        ]
  created req b s x same_leases (Issue.refused r s' bad same) j l' h =
      inl (sym (same j ∙ ap (lookup j) same_leases) ∙ h)

  pub renewed_to :
      (id : String) (body : Body ℤ) (p : Policy) (s : Server) (now later : Instant)
      (x : Response × Server)
      → Renewal.Ending c who id body p s.leases s.trail.emitter now later x
      → Renews c s x
  unfolding lookup envelope
  renewed_to id body p s now later x
        (Renewal.extended_to l ttl at line s' ext stored signed written) j l' h =
      elim (at_entry id j (extended l later ttl) l' s.leases s'.leases (stored j) h) [
        | inl old ↦ inl old
        | inr same ↦ inr (
            inr (
              subst (λ k. Attested c k s'.trail.emitter.out) same
                (Attested-last c (extended l later ttl) _ line s.trail.emitter s'.trail.emitter
                  (record {
                    kind = inr refl;
                    holder = ap some (sym ((eq_iff l.subject_key (key who.subject)).0 ext.owner));
                    scope = refl;
                    names = refl;
                    ends = refl;
                  })
                  signed written)))
      ]
  renewed_to id body p s now later x (Renewal.ended r l ttl s' bad ext stored) j l' h =
      elim (at_entry id j (record (extended l later ttl) { surrendered = true }) l' s.leases
        s'.leases (stored j) h) [
          | inl old ↦ inl old
          | inr same ↦ inr (inl (ap (λ k. k.surrendered) (sym same)))
        ]
  renewed_to id body p s now later x (Renewal.refused r s' bad same) j l' h = inl (sym (same j) ∙ h)

  pub surrendered :
      (id : String) (p : Policy) (s : Server) (x : Response × Server)
      → Surrender.Ending c who id p s.leases s.trail.emitter x
      → Renews c s x
  surrendered id p s x (Surrender.surrendered_now l at line s' e o stored signed written) j l' h =
      elim (at_entry id j (record l { surrendered = true }) l' s.leases s'.leases (stored j) h) [
        | inl old ↦ inl old
        | inr same ↦ inr (inl (ap (λ k. k.surrendered) (sym same)))
      ]
  surrendered id p s x (Surrender.surrendered_before l s' e gone same none_written) j l' h =
      keeps c s (Response.no_content, s') same j l' h
  surrendered id p s x (Surrender.kept r s' bad same) j l' h = keeps c s (r, s') same j l' h
