-- ===== src/Broker/Reload/Signed.antt =====
-- cmd/broker/main.go and internal/policy/watcher.go: a change of the policy in force is itself a signed event.
use agent_cred_broker.Prelude.{
  ◌≡◌, ◌≢◌, ◌↔◌, ◌⊎◌, refl, inl, inr, Option, none, some, List, [], ◌∷◌, String, Assoc, lookup,
  str_eq, eq_iff, Bool-cases,
}
use agent_cred_broker.Audit.{Event, texts, text, policy_reloaded}
use agent_cred_broker.Audit.Codec.{Codec}
use agent_cred_broker.Audit.Emitter.{emit}
use agent_cred_broker.Policy.{Policy}
use agent_cred_broker.Policy.Listing.{
  text_leb, put_in_order, sort_by, keys, itself, subject_keys, scope_names,
}
use agent_cred_broker.Policy.Parse.{Loader, Checked, fine, faulty, parse}
use agent_cred_broker.Policy.Watcher.{Watcher, take_over, reload_if_changed}
use agent_cred_broker.Server.{Trail, record_event}
use agent_cred_broker.Broker.{diff_sorted}
use agent_cred_broker.Broker.Diff.{In, diff_sorted_iff}
use agent_cred_broker.Broker.Reload.{reloaded_event, sign_report, tick}

In-put : (a x : String) (ys : List String) → In a (put_in_order itself x ys) ↔ ((x ≡ a) ⊎ In a ys)
unfolding put_in_order
In-put a x [] = ((λ h. h), (λ h. h))
In-put a x (y ∷ ys) = elim (Bool-cases (text_leb x y)) [
  | inl e ↦ rw (e, put_in_order) ((λ h. h), (λ h. h))
  | inr n ↦
      let ih = In-put a x ys in
      rw (n, put_in_order)
        (
          (λ h. elim h [
            | inl here ↦ inr (inl here)
            | inr later ↦ elim (ih.0 later) [ inl is ↦ inl is | inr there ↦ inr (inr there) ]
          ]),
          (λ h. elim h [
            | inl is ↦ inr (ih.1 (inl is))
            | inr there ↦ elim there [ inl here ↦ inl here | inr later ↦ inr (ih.1 (inr later)) ]
          ]),
        )
]

In-sort_by : (a : String) (xs : List String) → In a (sort_by itself xs) ↔ In a xs
unfolding sort_by
In-sort_by a [] = ((λ h. h), (λ h. h))
In-sort_by a (x ∷ xs) =
    let put = In-put a x (sort_by itself xs) in
    let ih = In-sort_by a xs in
    (
      (λ h. elim (put.0 h) [ inl is ↦ inl is | inr there ↦ inr (ih.0 there) ]),
      (λ h. elim h [ inl is ↦ put.1 (inl is) | inr there ↦ put.1 (inr (ih.1 there)) ]),
    )

-- The key is in the map.
abbrev pub IsKey : {V : Type 0} → Assoc V → String → Type 0
IsKey m k = lookup k m ≢ none

In-keys : {V : Type 0} (k : String) (m : Assoc V) → In k (keys m) ↔ IsKey m k
unfolding lookup
In-keys k [] = ((λ h. absurd h), (λ h. h refl))
In-keys k ((j, v) ∷ m) = elim (Bool-cases (str_eq j k)) [
  | inl y ↦ rw (y, lookup) ((λ h e. cc), (λ h. inl ((eq_iff j k).0 y)))
  | inr n ↦
      let ih = In-keys k m in
      rw (n, lookup)
        (
          (λ h. elim h [
            | inl e ↦ let y = (eq_iff j k).1 e in absurd (cc)
            | inr later ↦ ih.0 later
          ]),
          (λ h. inr (ih.1 h)),
        )
]

In-listed : {V : Type 0} (k : String) (m : Assoc V) → In k (sort_by itself (keys m)) ↔ IsKey m k
In-listed k m = (
  (λ h. (In-keys k m).0 ((In-sort_by k (keys m)).0 h)),
  (λ h. (In-sort_by k (keys m)).1 ((In-keys k m).1 h)),
)

-- These names are the keys of the one map that the other lacks.
abbrev pub OnlyIn : {V : Type 0} → Assoc V → Assoc V → List String → Type 0
OnlyIn m other names = (k : String) → In k names ↔ (IsKey m k × (¬ IsKey other k))

added :
    {V : Type 0} (old next : Assoc V)
    → OnlyIn next old (diff_sorted (sort_by itself (keys old)) (sort_by itself (keys next))).0
      × OnlyIn old next (diff_sorted (sort_by itself (keys old)) (sort_by itself (keys next))).1
added old next = (
  (λ k.
      let d = (diff_sorted_iff (sort_by itself (keys old)) (sort_by itself (keys next)) k).0 in
      let o = In-listed k old in
      let n = In-listed k next in
      ((λ h. (n.0 (d.0 h).0, (λ z. (d.0 h).1 (o.1 z)))), (λ h. d.1 (n.1 h.0, (λ z. h.1 (o.0 z)))))),
  (λ k.
      let d = (diff_sorted_iff (sort_by itself (keys old)) (sort_by itself (keys next)) k).1 in
      let o = In-listed k old in
      let n = In-listed k next in
      ((λ h. (o.0 (d.0 h).0, (λ z. (d.0 h).1 (n.1 z)))), (λ h. d.1 (o.1 h.0, (λ z. h.1 (n.0 z)))))),
)

-- The event of a change from one policy to another.
pub record Announces (old next : Policy) (ev : Event) : Type 0 where
  pub subjects_in : List String
  pub subjects_out : List String
  pub scopes_in : List String
  pub scopes_out : List String
  pub type_is : ev.event_type ≡ policy_reloaded
  pub from_hash : lookup "old_policy_hash" ev.attested ≡ some (text old.hash)
  pub to_hash : lookup "new_policy_hash" ev.attested ≡ some (text next.hash)
  pub lists_subjects_in : lookup "subjects_added" ev.attested ≡ some (texts subjects_in)
  pub lists_subjects_out : lookup "subjects_removed" ev.attested ≡ some (texts subjects_out)
  pub lists_scopes_in : lookup "scopes_added" ev.attested ≡ some (texts scopes_in)
  pub lists_scopes_out : lookup "scopes_removed" ev.attested ≡ some (texts scopes_out)
  pub subjects_added : OnlyIn next.grant_by_subj old.grant_by_subj subjects_in
  pub subjects_removed : OnlyIn old.grant_by_subj next.grant_by_subj subjects_out
  pub scopes_added : OnlyIn next.scope_by_name old.scope_by_name scopes_in
  pub scopes_removed : OnlyIn old.scope_by_name next.scope_by_name scopes_out

reloaded_event-Announces : (old next : Policy) → Announces old next (reloaded_event old next)
unfolding lookup subject_keys scope_names
reloaded_event-Announces old next =
    let subjects = added old.grant_by_subj next.grant_by_subj in
    let scopes = added old.scope_by_name next.scope_by_name in
    record {
      subjects_in = _;
      subjects_out = _;
      scopes_in = _;
      scopes_out = _;
      type_is = refl;
      from_hash = refl;
      to_hash = refl;
      lists_subjects_in = refl;
      lists_subjects_out = refl;
      lists_scopes_in = refl;
      lists_scopes_out = refl;
      subjects_added = subjects.0;
      subjects_removed = subjects.1;
      scopes_added = scopes.0;
      scopes_removed = scopes.1;
    }

-- What a step of Watch with its report does to the policy and the trail.
abbrev pub Outcome : Codec → Watcher × Trail → Watcher × Trail → Type 0
Outcome c before x =
    (x.0.current ≡ before.0.current)
    ⊎ ((ev : Event) × Announces before.0.current x.0.current ev
        × (x.1.emitter
            ≡ (emit c (before.1.world.clock before.1.world.reads)
                (before.1.world.writing before.1.world.writes) ev before.1.emitter).1))

taken :
    (c : Codec) (why sum : String) (p : Checked Policy) (w : Watcher) (t : Trail)
    → Outcome c (w, t) ((take_over sum p w).1, sign_report c why (take_over sum p w).0 t)
unfolding take_over sign_report record_event
taken c why sum (faulty e) w t = inl refl
taken c why sum (fine next) w t =
    inr (reloaded_event w.current next, reloaded_event-Announces w.current next, refl)

-- After each tick of Watch, whatever it read, the policy in force is the one before, or one event was
-- handed to the emitter that announces the change: the hashes of both policies, and exactly the subjects
-- and the scopes that the new one has and the old one lacks, and the other way round.
pub policy_changes_are_announced :
    (c : Codec) (loader : Loader) (why : String) (raw : Option String) (w : Watcher) (t : Trail)
    → Outcome c (w, t) (tick c loader why raw (w, t))
unfolding tick reload_if_changed sign_report
policy_changes_are_announced c loader why none w t = inl refl
policy_changes_are_announced c loader why (some raw) w t =
    elim (Bool-cases (str_eq (loader.hash raw) w.last_sum)) [
      | inl y ↦ rw y (inl refl)
      | inr n ↦ rw n (taken c why (loader.hash raw) (parse loader raw) w t)
    ]
