-- ===== src/Policy/Watcher/Reload.antt =====
-- internal/policy/watcher.go: which policy is in force, and what is reported.
use agent_cred_broker.Prelude.{
  ◌≡◌, refl, sym, ap, ◌∙◌, subst, inl, inr, Option, none, some, some-injective, none-ne-some, List,
  [], ◌∷◌, All, String, str_eq, eq_iff, eq_refl, Bool-cases,
}
use agent_cred_broker.Policy.{Policy}
use agent_cred_broker.Policy.Parse.{Loader, Checked, fine, faulty, parse}
use agent_cred_broker.Policy.Parse.Valid.{fine-inj, faulty-ne-fine}
use agent_cred_broker.Policy.Watcher.{
  Watcher, quiet, new_store, take_over, reload_if_changed, watch,
}

-- The policy of the latest text that parses, of those that were read.
unfoldable pub latest : Loader → Policy → List (Option String) → Policy
latest loader p [] = p
latest loader p (none ∷ rs) = latest loader p rs
latest loader p (some raw ∷ rs) =
    latest loader (elim (parse loader raw) [ fine q ↦ q | faulty e ↦ p ]) rs

-- The hash has no collision among these texts.
abbrev pub NoCollision : (String → Type 0) → Loader → Type 0
NoCollision Known loader =
    (a b : String) → Known a → Known b → loader.hash a ≡ loader.hash b → a ≡ b

-- What is read is one of these texts, or nothing.
abbrev pub Reads : (String → Type 0) → Option String → Type 0
Reads Known none = Unit
Reads Known (some raw) = Known raw

module _ (Known : String → Type 0) (loader : Loader) where
  -- The sum is of a text that parses to the policy in force, or that does not parse.
  record Remembers (w : Watcher) : Type 0 where
    raw : String
    known : Known raw
    summed : w.last_sum ≡ loader.hash raw
    in_force : (q : Policy) → parse loader raw ≡ fine q → w.current ≡ q

  abbrev started : String → Checked Policy → Option Watcher
  started raw (faulty e) = none
  started raw (fine p) = some (record { current = p; last_sum = loader.hash raw })

  started-Remembers :
      (raw : String) (r : Checked Policy) (w : Watcher)
      → Known raw
      → parse loader raw ≡ r
      → started raw r ≡ some w
      → (parse loader raw ≡ fine w.current) × Remembers w
  started-Remembers raw (faulty e) w k f g = absurd (none-ne-some w g)
  started-Remembers raw (fine p) w k f g =
      subst (λ x. (parse loader raw ≡ fine x.current) × Remembers x) (some-injective _ w g)
        (
          f,
          record {
            raw = raw;
            known = k;
            summed = refl;
            in_force = λ q e. fine-inj p q (sym f ∙ e);
          },
        )

  new_store-Remembers :
      (raw : String) (w : Watcher)
      → Known raw
      → new_store loader raw ≡ some w
      → (parse loader raw ≡ fine w.current) × Remembers w
  unfolding new_store
  new_store-Remembers raw w k h = started-Remembers raw (parse loader raw) w k refl h

  -- The policy of a text, or the one before.
  abbrev or_before : Policy → Checked Policy → Policy
  or_before p r = elim r [ fine q ↦ q | faulty e ↦ p ]

  unchanged :
      (raw : String) (w : Watcher) (m : Remembers w) (r : Checked Policy)
      → parse loader raw ≡ r
      → raw ≡ m.raw
      → w.current ≡ or_before w.current r
  unchanged raw w m (fine q) f same = m.in_force q (ap (parse loader) (sym same) ∙ f)
  unchanged raw w m (faulty e) f same = refl

  taken_over :
      (raw : String) (w : Watcher) (r : Checked Policy)
      → Known raw
      → parse loader raw ≡ r
      → ((take_over (loader.hash raw) r w).1.current ≡ or_before w.current r)
        × Remembers (take_over (loader.hash raw) r w).1
  unfolding take_over
  taken_over raw w (fine q) k f = (
    refl,
    record { raw = raw; known = k; summed = refl; in_force = λ p e. fine-inj q p (sym f ∙ e) },
  )
  taken_over raw w (faulty e) k f = (
    refl,
    record {
      raw = raw;
      known = k;
      summed = refl;
      in_force = λ p g. absurd (faulty-ne-fine e p (sym f ∙ g));
    },
  )

  -- A tick leaves the policy of the text in force, and the sum of a text that was read.
  tick :
      (raw : String) (w : Watcher)
      → NoCollision Known loader
      → Known raw
      → Remembers w
      → ((reload_if_changed loader (some raw) w).1.current ≡ or_before w.current (parse loader raw))
        × Remembers (reload_if_changed loader (some raw) w).1
  unfolding reload_if_changed
  tick raw w unique k m = elim (Bool-cases (str_eq (loader.hash raw) w.last_sum)) [
    | inl y ↦
        let same : raw ≡ m.raw =
          unique raw m.raw k m.known ((eq_iff (loader.hash raw) w.last_sum).0 y ∙ m.summed) in
        rw y (unchanged raw w m (parse loader raw) refl same, m)
    | inr n ↦ rw n (taken_over raw w (parse loader raw) k refl)
  ]

  watch-latest :
      (rs : List (Option String)) (w : Watcher)
      → NoCollision Known loader
      → All (Reads Known) rs
      → Remembers w
      → (watch loader rs w).current ≡ latest loader w.current rs
  unfolding watch latest reload_if_changed
  watch-latest [] w unique k m = refl
  watch-latest (none ∷ rs) w unique k m = watch-latest rs w unique k.1 m
  watch-latest (some raw ∷ rs) w unique k m =
      let (now, m') = tick raw w unique k.0 m in
      watch-latest rs (reload_if_changed loader (some raw) w).1 unique k.1 m'
      ∙ ap (λ p. latest loader p rs) now

  -- However often the file is read, changed, broken or missing, the policy in force is the one of the
  -- latest text read that parses, the one of the start included: a change that parses takes effect at
  -- the next tick, and one that does not leaves the policy as it was. Among the texts that are read no two
  -- have one hash.
  pub latest_policy_in_force :
      (raw : String) (rs : List (Option String)) (w : Watcher)
      → NoCollision Known loader
      → Known raw
      → All (Reads Known) rs
      → new_store loader raw ≡ some w
      → (watch loader rs w).current ≡ latest loader w.current rs
  latest_policy_in_force raw rs w unique k ks h =
      watch-latest rs w unique ks (new_store-Remembers raw w k h).1

take_over-sum :
    (sum : String) (r : Checked Policy) (w : Watcher) → (take_over sum r w).1.last_sum ≡ sum
unfolding take_over
take_over-sum sum (fine q) w = refl
take_over-sum sum (faulty e) w = refl

-- What a text brings is reported once: a second tick on the same text is quiet and changes nothing,
-- whether the text parses or not.
pub reload_settles :
    (loader : Loader) (raw : String) (w : Watcher)
    → reload_if_changed loader (some raw) (reload_if_changed loader (some raw) w).1
      ≡ (quiet, (reload_if_changed loader (some raw) w).1)
unfolding reload_if_changed
reload_settles loader raw w = elim (Bool-cases (str_eq (loader.hash raw) w.last_sum)) [
  | inl y ↦ rw (y, reload_if_changed) (rw y refl)
  | inr n ↦
      rw (n, reload_if_changed)
        (rw (take_over-sum (loader.hash raw) (parse loader raw) w, eq_refl (loader.hash raw)) refl)
]
