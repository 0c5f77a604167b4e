-- ===== src/Notify/Grants/Valid.antt =====
-- internal/notify/policy.go: what holds of every policy that Parse accepts.
use agent_cred_broker.Prelude.{
  ◌≡◌, ◌≢◌, refl, ap, subst, inl, inr, Bool, true, false, not, ◌||◌, none, some, some-injective,
  List, [], ◌∷◌, All, String, Assoc, lookup, insert, lookup-insert, str_eq, eq_iff, Bool-cases,
  arith, bind-eq-some,
}
use agent_cred_broker.Regexp.{match_string}
use agent_cred_broker.Policy.Patterns.{subject_key}
use agent_cred_broker.Notify.Grants.{
  parse_policy, kind_push, kind_create, kind_dismiss, known_kind, ha_target, Grant, SubjectPolicy,
  Policy, Loader, Fault, Checked, fine, faulty, ◌>>=◌, refuse, is_present, check_targets,
  check_push, check_kind, check_grant, add_grants, check_subject, add_subjects, build, parse,
  grant_for,
}

fine-inj : {A : Type 0} (a b : A) → Path (Checked A) (fine a) (fine b) → a ≡ b
fine-inj a b h = ap (λ c. elim c [ fine x ↦ x | faulty f ↦ a ]) h

faulty-ne-fine : {A : Type 0} (f : Fault) (a : A) → Path (Checked A) (faulty f) (fine a) → ⊥
faulty-ne-fine f a h = cc

bind-fine :
    {A B : Type 0} (m : Checked A) (f : A → Checked B) (b : B)
    → Path (Checked B) (m >>= f) (fine b)
    → (a : A) × Path (Checked A) m (fine a) × Path (Checked B) (f a) (fine b)
bind-fine (fine a) f b h = (a, refl, h)
bind-fine (faulty e) f b h = absurd (faulty-ne-fine e b h)

refuse-fine :
    (b : Bool) (e : Fault) (u : Unit) → Path (Checked Unit) (refuse b e) (fine u) → b ≡ false
refuse-fine true e u h = absurd (faulty-ne-fine e u h)
refuse-fine false e u h = refl

-- A grant that is bounded: a device that the policy pins, or a prefix that is not empty.
pub record IsBounded (g : Grant) : Type 0 where
  pub known : known_kind g.kind ≡ true
  pub pinned :
      g.kind ≡ kind_push → (g.targets ≢ []) × All (λ t. match_string ha_target t ≡ true) g.targets
  pub prefixed : g.kind ≢ kind_push → g.id_prefix ≢ ""

check_targets-All :
    (ts : List String) (u : Unit)
    → check_targets ts ≡ fine u
    → All (λ t. match_string ha_target t ≡ true) ts
unfolding check_targets
check_targets-All [] u h = tt
check_targets-All (t ∷ ts) u h =
    let (v, first, rest) = bind-fine (refuse (not (match_string ha_target t)) _) _ u h in
    let off = refuse-fine (not (match_string ha_target t)) _ v first in
    (ground arith, check_targets-All ts u rest)

check_push-All :
    (ts : List String) (u : Unit)
    → check_push ts ≡ fine u
    → (ts ≢ []) × All (λ t. match_string ha_target t ≡ true) ts
unfolding check_push
check_push-All [] u h = absurd (faulty-ne-fine _ u h)
check_push-All (t ∷ ts) u h = ((λ e. cc), check_targets-All (t ∷ ts) u h)

other_kinds :
    (k : String)
    → known_kind k ≡ true
    → str_eq k kind_push ≡ false
    → (str_eq k kind_create || str_eq k kind_dismiss) ≡ true
unfolding known_kind
other_kinds k known n = ground arith

check_kind-prefixed :
    (g : Grant) (u : Unit)
    → known_kind g.kind ≡ true
    → check_kind g ≡ fine u
    → g.kind ≢ kind_push
    → g.id_prefix ≢ ""
unfolding check_kind
check_kind-prefixed g u known h ne e =
    let n : str_eq g.kind kind_push ≡ false = ground (arith, eq_iff g.kind kind_push) in
    let o = other_kinds g.kind known n in
    let h' : Path (Checked Unit) (refuse (str_eq g.id_prefix "") _) (fine u) = rw (n, o) at h in
    let off = refuse-fine (str_eq g.id_prefix "") _ u h' in
    let y = (eq_iff g.id_prefix "").1 e in cc

check_kind-pinned :
    (g : Grant) (u : Unit)
    → check_kind g ≡ fine u
    → g.kind ≡ kind_push
    → (g.targets ≢ []) × All (λ t. match_string ha_target t ≡ true) g.targets
unfolding check_kind
check_kind-pinned g u h e =
    let y = (eq_iff g.kind kind_push).1 e in check_push-All g.targets u (rw y at h)

check_grant-IsBounded :
    (seen : Assoc Grant) (g : Grant) (u : Unit) → check_grant seen g ≡ fine u → IsBounded g
unfolding check_grant
check_grant-IsBounded seen g u h =
    let (v, first, rest) = bind-fine (refuse (not (known_kind g.kind)) _) _ u h in
    let (w, second, last) = bind-fine (refuse (is_present (lookup g.kind seen)) _) _ u rest in
    let off = refuse-fine (not (known_kind g.kind)) _ v first in
    let known : known_kind g.kind ≡ true = ground arith in
    record {
      known = known;
      pinned = check_kind-pinned g u last;
      prefixed = check_kind-prefixed g u known last;
    }

-- Every entry is a bounded grant under its kind.
abbrev GrantsBounded : Assoc Grant → Type 0
GrantsBounded m = (k : String) (g : Grant) → lookup k m ≡ some g → (g.kind ≡ k) × IsBounded g

insert-GrantsBounded :
    (m : Assoc Grant) (g : Grant)
    → GrantsBounded m
    → IsBounded g
    → GrantsBounded (insert g.kind g m)
insert-GrantsBounded m g ok bounded k g' h = elim (Bool-cases (str_eq g.kind k)) [
  | inl y ↦
      let q : some g ≡ some g' = rw (lookup-insert g.kind k g m, y) at h in
      subst (λ x. (x.kind ≡ k) × IsBounded x) (some-injective g g' q)
        ((eq_iff g.kind k).0 y, bounded)
  | inr n ↦ ok k g' (rw (lookup-insert g.kind k g m, n) at h)
]

add_grants-GrantsBounded :
    (seen : Assoc Grant) (gs : List Grant) (m : Assoc Grant)
    → GrantsBounded seen
    → add_grants seen gs ≡ fine m
    → GrantsBounded m
unfolding add_grants
add_grants-GrantsBounded seen [] m ok h = subst GrantsBounded (fine-inj seen m h) ok
add_grants-GrantsBounded seen (g ∷ gs) m ok h =
    let (u, checked, rest) = bind-fine (check_grant seen g) _ m h in
    add_grants-GrantsBounded (insert g.kind g seen) gs m
      (insert-GrantsBounded seen g ok (check_grant-IsBounded seen g u checked)) rest

-- Every subject is well formed, and so are its grants.
abbrev SubjectsBounded : Assoc (Assoc Grant) → Type 0
SubjectsBounded m =
    (s : String) (grants : Assoc Grant)
    → lookup s m ≡ some grants
    → (match_string subject_key s ≡ true) × GrantsBounded grants

insert-SubjectsBounded :
    (m : Assoc (Assoc Grant)) (s : String) (grants : Assoc Grant)
    → SubjectsBounded m
    → match_string subject_key s ≡ true
    → GrantsBounded grants
    → SubjectsBounded (insert s grants m)
insert-SubjectsBounded m s grants ok formed bounded t grants' h = elim (Bool-cases (str_eq s t)) [
  | inl y ↦
      let q : some grants ≡ some grants' = rw (lookup-insert s t grants m, y) at h in
      (
        subst (λ x. match_string subject_key x ≡ true) ((eq_iff s t).0 y) formed,
        subst GrantsBounded (some-injective grants grants' q) bounded,
      )
  | inr n ↦ ok t grants' (rw (lookup-insert s t grants m, n) at h)
]

add_subjects-SubjectsBounded :
    (seen : Assoc (Assoc Grant)) (sps : List SubjectPolicy) (m : Assoc (Assoc Grant))
    → SubjectsBounded seen
    → add_subjects seen sps ≡ fine m
    → SubjectsBounded m
unfolding add_subjects check_subject
add_subjects-SubjectsBounded seen [] m ok h = subst SubjectsBounded (fine-inj seen m h) ok
add_subjects-SubjectsBounded seen (sp ∷ sps) m ok h =
    let (u, checked, later) = bind-fine (check_subject seen sp) _ m h in
    let (v, formed, fresh) =
      bind-fine (refuse (not (match_string subject_key sp.service_account)) _) _ u checked in
    let off = refuse-fine (not (match_string subject_key sp.service_account)) _ v formed in
    let (grants, added, rest) = bind-fine (add_grants [] sp.grants) _ m later in
    let none_yet : GrantsBounded [] = λ k g e. unfold lookup in cc in
    add_subjects-SubjectsBounded (insert sp.service_account grants seen) sps m
      (insert-SubjectsBounded seen sp.service_account grants ok (ground arith)
        (add_grants-GrantsBounded [] sp.grants grants none_yet added))
      rest

-- What a policy promises about every grant that the proxy can look up.
abbrev pub IsNarrow : Policy → Type 0
IsNarrow p =
    (s k : String) (g : Grant)
    → grant_for p s k ≡ some g
    → (match_string subject_key s ≡ true) × (g.kind ≡ k) × IsBounded g

-- Every grant of a policy that Parse accepts stands under its own kind and a well-formed subject. A push
-- grant pins at least one device, whose names are service names, and any other grant has a prefix that is
-- not empty: no accepted policy lets a caller choose its target or touch every notification.
pub parse-IsNarrow :
    (loader : Loader) (raw : String) (p : Policy) → parse loader raw ≡ fine p → IsNarrow p
unfolding parse build grant_for
parse-IsNarrow loader raw p h s k g e =
    elim (loader.unmarshal raw)
        as (λ o.
          (elim o [ none ↦ faulty parse_policy | some subjects ↦ build loader raw subjects ])
            ≡ fine p
          → (match_string subject_key s ≡ true) × (g.kind ≡ k) × IsBounded g) [
            | none ↦ λ h'. absurd (faulty-ne-fine _ p h')
            | some subjects ↦ λ h'.
                let (by_key, added, same) = bind-fine (add_subjects [] subjects) _ p h' in
                let q = fine-inj _ p same in
                let (grants, found, inner) =
                  bind-eq-some (lookup s p.by_key) (λ grants. lookup k grants) e in
                let none_yet : SubjectsBounded [] = λ t gs e'. unfold lookup in cc in
                let all : SubjectsBounded by_key =
                  add_subjects-SubjectsBounded [] subjects by_key none_yet added in
                let (formed, bounded) = all s grants (rw (ap (λ (x : Policy). x.by_key) q) found) in
                let (kind_is, grant_is) = bounded k g inner in (formed, kind_is, grant_is)
          ]
      h
