-- ===== src/Policy/Parse/Valid.antt =====
-- internal/policy/policy.go: what holds of every scope that Parse lets through.
use agent_cred_broker.Prelude.{
  not, ◌&&◌, and_parts, ◌≡◌, ◌≢◌, refl, ap, subst, ◌⊎◌, inl, inr, Bool, true, false, some,
  some-injective, List, [], ◌∷◌, All, String, Assoc, lookup, insert, lookup-insert, str_eq, eq_iff,
  Bool-cases, else_branch, arith, if◌then◌else◌,
}
use agent_cred_broker.Regexp.{match_string}
use agent_cred_broker.Policy.{Scope}
use agent_cred_broker.Policy.Patterns.{op_ref, installation_ref, permissions, repositories}
use agent_cred_broker.Policy.Parse.{
  Fault, Checked, fine, faulty, ◌>>=◌, first_fault, op_tests, github_tests, is_empty,
  known_provider, param, all_token, check_scope, add_scopes,
}

pub faulty-ne-fine {ℓ} : {A : Type ℓ} (f : Fault) (a : A) → Path (Checked A) (faulty f) (fine a) → ⊥
faulty-ne-fine f a h = cc

pub fine-inj {ℓ} : {A : Type ℓ} (a b : A) → Path (Checked A) (fine a) (fine b) → a ≡ b
fine-inj a b h = ap (λ c. elim c [ fine x ↦ x | faulty f ↦ a ]) h

-- A chain that ends well went well at each step.
pub bind-fine {ℓ κ} :
    {A : Type ℓ} {B : Type κ} (m : Checked A) (f : A → Checked B) (b : B)
    → Path (Checked B) (m >>= f) (fine b)
    → (a : A) × Path (Checked A) m (fine a) × Path (Checked B) (f a) (fine b)
bind-fine (fine a) f b h = (a, refl, h)
bind-fine (faulty e) f b h = absurd (faulty-ne-fine e b h)

pub first_fault-fine :
    (ts : List (Bool × Fault)) (u : Unit) → first_fault ts ≡ fine u → All (λ t. t.0 ≡ false) ts
unfolding first_fault
first_fault-fine [] u h = tt
first_fault-fine ((b, f) ∷ ts) u h =
    let (off, rest) = else_branch b (faulty f) (first_fault ts) (fine u) (faulty-ne-fine f u) h in
    (off, first_fault-fine ts u rest)

-- A scope that passes the tests: a provider that the broker knows, and a reference of its form.
pub record IsSound (s : Scope) : Type 0 where
  pub named : s.name ≢ ""
  pub known : known_provider s.provider ≡ true
  pub some_field : s.fields ≢ []
  pub reference :
      ((s.provider ≡ "onepassword-connect") × (match_string op_ref s.ref ≡ true))
      ⊎ ((s.provider ≡ "github-app")
          × (match_string installation_ref s.ref ≡ true)
          × (match_string permissions (param "permissions" s.params) ≡ true)
          × ((param "repositories" s.params ≡ "")
              ⊎ (match_string repositories (param "repositories" s.params) ≡ true))
          × All (λ kv. kv.1 ≡ "token") s.fields)

true_of_not : (b : Bool) → not b ≡ false → b ≡ true
true_of_not b h = ground arith

all_token-All :
    (fields : Assoc String) → all_token fields ≡ true → All (λ kv. kv.1 ≡ "token") fields
unfolding all_token
all_token-All [] h = tt
all_token-All ((field, key) ∷ fields) h =
    let (one, rest) = and_parts (str_eq key "token") (all_token fields) h in
    ((eq_iff key "token").0 one, all_token-All fields rest)

other_is_github :
    (p : String)
    → known_provider p ≡ true
    → str_eq p "onepassword-connect" ≡ false
    → p ≡ "github-app"
unfolding known_provider
other_is_github p h n = (eq_iff p "github-app").0 (ground arith)

no_repositories :
    (repos : String)
    → (not (str_eq repos "") && not (match_string repositories repos)) ≡ false
    → (repos ≡ "") ⊎ (match_string repositories repos ≡ true)
no_repositories repos h = elim (Bool-cases (str_eq repos "")) [
  | inl y ↦ inl ((eq_iff repos "").0 y)
  | inr n ↦ inr (ground arith)
]

reference-IsSound :
    (s : Scope)
    → known_provider s.provider ≡ true
    → All
        (λ t. t.0 ≡ false)
        (if str_eq s.provider "onepassword-connect" then op_tests s else github_tests s)
    → ((s.provider ≡ "onepassword-connect") × (match_string op_ref s.ref ≡ true))
      ⊎ ((s.provider ≡ "github-app")
          × (match_string installation_ref s.ref ≡ true)
          × (match_string permissions (param "permissions" s.params) ≡ true)
          × ((param "repositories" s.params ≡ "")
              ⊎ (match_string repositories (param "repositories" s.params) ≡ true))
          × All (λ kv. kv.1 ≡ "token") s.fields)
reference-IsSound s known h = elim (Bool-cases (str_eq s.provider "onepassword-connect")) [
  | inl y ↦ let h' = rw y at h in inl ((eq_iff s.provider "onepassword-connect").0 y, ground arith)
  | inr n ↦
      let h' : All (λ t. t.0 ≡ false) (github_tests s) = rw n at h in
      inr (
        other_is_github s.provider known n,
        true_of_not _ h'.0,
        true_of_not _ h'.1.0,
        no_repositories (param "repositories" s.params) h'.1.1.0,
        all_token-All s.fields (true_of_not _ h'.1.1.1.0),
      )
]

check_scope-IsSound :
    (seen : Assoc Scope) (s : Scope) (u : Unit) → check_scope seen s ≡ fine u → IsSound s
unfolding check_scope
check_scope-IsSound seen s u h =
    let t = first_fault-fine _ u h in
    record {
      named = λ e. let y = (eq_iff s.name "").1 e in let n = t.0 in cc;
      known = let k = t.1.1.0 in ground arith;
      some_field = λ e.
          let k : is_empty s.fields ≡ false = t.1.1.1.0 in let k' : true ≡ false = rw e at k in cc;
      reference = reference-IsSound s (let k = t.1.1.0 in ground arith) t.1.1.1.1;
    }

-- Every entry of the table is a scope under its name.
abbrev pub ScopesSound : Assoc Scope → Type 0
ScopesSound m = (n : String) (s : Scope) → lookup n m ≡ some s → (s.name ≡ n) × IsSound s

insert-ScopesSound :
    (m : Assoc Scope) (s : Scope) → ScopesSound m → IsSound s → ScopesSound (insert s.name s m)
insert-ScopesSound m s ok sound n s' h = elim (Bool-cases (str_eq s.name n)) [
  | inl y ↦
      let q : some s ≡ some s' = rw (lookup-insert s.name n s m, y) at h in
      let same : s ≡ s' = some-injective s s' q in
      subst (λ x. (x.name ≡ n) × IsSound x) same ((eq_iff s.name n).0 y, sound)
  | inr other ↦ ok n s' (rw (lookup-insert s.name n s m, other) at h)
]

pub add_scopes-ScopesSound :
    (seen : Assoc Scope) (ss : List Scope) (m : Assoc Scope)
    → ScopesSound seen
    → add_scopes seen ss ≡ fine m
    → ScopesSound m
unfolding add_scopes
add_scopes-ScopesSound seen [] m ok h = subst ScopesSound (fine-inj seen m h) ok
add_scopes-ScopesSound seen (s ∷ ss) m ok h =
    let (u, checked, rest) =
      bind-fine (check_scope seen s) (λ _. add_scopes (insert s.name s seen) ss) m h in
    add_scopes-ScopesSound (insert s.name s seen) ss m
      (insert-ScopesSound seen s ok (check_scope-IsSound seen s u checked)) rest
