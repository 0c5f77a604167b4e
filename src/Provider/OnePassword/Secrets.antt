-- ===== src/Provider/OnePassword/Secrets.antt =====
-- internal/provider/onepassword.go: Fetch gives the whole secret or none, and the probe's result is not old.
use agent_cred_broker.Prelude.{
  ◌≢◌, Option-cases, if◌then◌else◌, ◌+◌, ◌-◌, ◌<◌, ◌≡◌, refl, sym, ap, ◌∙◌, subst, inl, inr, ◌⊎◌,
  Bool, true, false, not, Option, none, some, some-injective, none-ne-some, List, [], ◌∷◌, String,
  Assoc, lookup, insert, lookup-insert, Unique, bind-eq-some, else_branch, Bool-cases, str_eq,
  eq_iff, ltb, ◌==◌, arith,
}
use agent_cred_broker.Time.{Instant}
use agent_cred_broker.Regexp.{match_string}
use agent_cred_broker.Policy.Patterns.{op_ref}
use agent_cred_broker.Provider.{Request, Result}
use agent_cred_broker.Provider.OnePassword.{
  ItemField, Reply, unreachable, replied, by_label, full_value, pick, secret_of, fetch, Health,
  health_ttl, healthy,
}

-- The value of the last field of the item that has the label.
unfoldable pub last_value : String → List ItemField → Option String
last_value label [] = none
last_value label (f ∷ fs) = elim (last_value label fs) [
  | none ↦ if str_eq f.label label then some f.value else none
  | some v ↦ some v
]

abbrev or_else : {A : Type 0} → Option A → Option A → Option A
or_else none o = o
or_else (some a) o = some a

or_none : {A : Type 0} (o : Option A) → o ≡ or_else o none
or_none none = refl
or_none (some a) = refl

lookup-by_label :
    (label : String) (m : Assoc String) (fs : List ItemField)
    → lookup label (by_label m fs) ≡ or_else (last_value label fs) (lookup label m)
unfolding by_label last_value
lookup-by_label label m [] = refl
lookup-by_label label m (f ∷ fs) =
    lookup-by_label label (insert f.label f.value m) fs
    ∙ elim (Option-cases (last_value label fs)) [
      | inl e ↦ rw (e, lookup-insert f.label label f.value m) (ground arith)
      | inr (v, e) ↦ rw e refl
    ]

-- The item gives the label this value, and the value is not empty.
abbrev pub Gives : List ItemField → String → String → Type 0
Gives item label v = (last_value label item ≡ some v) × (v ≢ "")

-- What the code takes for the value of a label is given by the item.
full_value-Gives :
    (item : List ItemField) (label v : String)
    → full_value label (by_label [] item) ≡ some v
    → Gives item label v
unfolding full_value lookup
full_value-Gives item label v h =
    let (w, found, rest) =
      bind-eq-some (lookup label (by_label [] item)) (λ w. if str_eq w "" then none else some w)
        h in
    let (full, made) = else_branch (str_eq w "") none (some w) (some v) (none-ne-some v) rest in
    let same : w ≡ v = some-injective w v made in
    let read : or_else (last_value label item) none ≡ some w =
      sym (lookup-by_label label [] item) ∙ found in
    (
      or_none (last_value label item) ∙ read ∙ ap some same,
      (λ e. let y = (eq_iff w "").1 (same ∙ e) in cc),
    )

-- One field of the lease: it is asked for, and has the value of its label, or it is as in `out`.
abbrev At : Assoc String → Assoc String → Assoc String → String → Option String → Type 0
At values out secret field none = lookup field secret ≡ lookup field out
At values out secret field (some label) =
    (v : String) × (full_value label values ≡ some v) × (lookup field secret ≡ some v)

-- A field of the secret, by the label that the request names for it: no label and no field, or the value
-- that the item gives the label.
abbrev pub Holds : List ItemField → Assoc String → String → Option String → Type 0
Holds item secret field none = lookup field secret ≡ none
Holds item secret field (some label) =
    (v : String) × Gives item label v × (lookup field secret ≡ some v)

At-Holds :
    (item : List ItemField) (secret : Assoc String) (field : String) (o : Option String)
    → At (by_label [] item) [] secret field o
    → Holds item secret field o
unfolding lookup
At-Holds item secret field none h = h
At-Holds item secret field (some label) (v, full, found) =
    (v, full_value-Gives item label v full, found)

module _ (values : Assoc String) where
  At-inserted :
      (out secret : Assoc String) (k v f : String) (o : Option String)
      → str_eq k f ≡ false
      → At values (insert k v out) secret f o
      → At values out secret f o
  At-inserted out secret k v f none n h = h ∙ rw (lookup-insert k f v out, n) refl
  At-inserted out secret k v f (some label) n h = h

  pick-At :
      (out fields secret : Assoc String)
      → Unique fields
      → pick values out fields ≡ some secret
      → (f : String) → At values out secret f (lookup f fields)
  unfolding pick lookup
  pick-At out [] secret u h f = ap (lookup f) (sym (some-injective out secret h))
  pick-At out ((k, label) ∷ fields) secret u h f =
      let (v, found, rest) =
        bind-eq-some (full_value label values) (λ v. pick values (insert k v out) fields) h in
      let ih = pick-At (insert k v out) fields secret u.1 rest f in
      elim (Bool-cases (str_eq k f)) [
        | inl y ↦
            let absent : lookup f fields ≡ none =
              subst (λ x. lookup x fields ≡ none) ((eq_iff k f).0 y) u.0 in
            let read : At values (insert k v out) secret f none =
              subst (At values (insert k v out) secret f) absent ih in
            rw (y, lookup) (v, found, read ∙ rw (lookup-insert k f v out, y) refl)
        | inr n ↦ rw (n, lookup) (At-inserted out secret k v f (lookup f fields) n ih)
      ]

-- What a secret that Fetch returns comes from.
pub record IsWhole (connect : String → Reply) (req : Request) (r : Result) : Type 0 where
  pub form : match_string op_ref req.ref ≡ true
  pub item : List ItemField
  pub answer : connect req.ref ≡ replied 200 (some item)
  pub fields : (f : String) → Holds item r.secret f (lookup f req.fields)
  pub endless : r.expires_at ≡ 0

secret_of-whole :
    (fields : Assoc String) (reply : Reply) (r : Result)
    → Unique fields
    → secret_of fields reply ≡ some r
    → (item : List ItemField) × (reply ≡ replied 200 (some item))
      × ((f : String) → At (by_label [] item) [] r.secret f (lookup f fields))
      × (r.expires_at ≡ 0)
unfolding secret_of
secret_of-whole fields unreachable r u h = absurd (none-ne-some r h)
secret_of-whole fields (replied status none) r u h = absurd (none-ne-some r h)
secret_of-whole fields (replied status (some item)) r u h =
    let (ok, rest) = else_branch (not (status == 200)) none _ (some r) (none-ne-some r) h in
    let (out, picked, made) = bind-eq-some (pick (by_label [] item) [] fields) _ rest in
    let same : status ≡ 200 = ground arith in
    (
      item,
      ap (λ n. replied n (some item)) same,
      subst (λ x. (f : String) → At (by_label [] item) [] x.secret f (lookup f fields))
          (some-injective _ r made) (pick-At (by_label [] item) [] fields out u picked),
      ap (λ x. x.expires_at) (sym (some-injective _ r made)),
    )

-- When Fetch returns a secret, the reference has its form, Connect answered 200 with an item, and the
-- secret has exactly the fields that the request names, each with the value of the item's last field of
-- its label, which is there and not empty. The request names a field once.
pub fetch-IsWhole :
    (connect : String → Reply) (req : Request) (r : Result)
    → Unique req.fields
    → fetch connect req ≡ some r
    → IsWhole connect req r
unfolding fetch
fetch-IsWhole connect req r u h =
    let (form, rest) =
      else_branch (not (match_string op_ref req.ref)) none _ (some r) (none-ne-some r) h in
    let (item, answer, fields, endless) = secret_of-whole req.fields (connect req.ref) r u rest in
    record {
      form = ground arith;
      item = item;
      answer = answer;
      fields = (λ f. At-Holds item r.secret f (lookup f req.fields) (fields f));
      endless = endless;
    }

-- What Healthy returns is the result of a probe that is at most a minute old: the one it has just made, or
-- one whose time is less than the ttl ago.
pub healthy_is_recent :
    (now after_probe : Instant) (probe : Bool) (h : Health)
    → ((healthy now after_probe probe h ≡ (h.ok, h)) × (now < h.at + health_ttl))
      ⊎ (healthy now after_probe probe h ≡ (probe, record { at = after_probe; ok = probe }))
unfolding healthy
healthy_is_recent now after_probe probe h = elim (Bool-cases (ltb (now - h.at) health_ttl)) [
  | inl y ↦ rw y (inl (refl, ground arith))
  | inr n ↦ rw n (inr refl)
]
