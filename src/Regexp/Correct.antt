-- ===== src/Regexp/Correct.antt =====
-- Package regexp as modelled: the decision by derivatives agrees with the language of the pattern.
use agent_cred_broker.Prelude.{
  ℕ, ◌≡◌, refl, sym, ap, true, List, [], ◌∷◌, ◌++◌, String, inl, inr, arith, and_parts, or_parts,
  Bool-cases, ◌↔◌, subst,
}
use agent_cred_broker.Regexp.{
  Regexp, never, empty, class, seq, alt, star, codes, nullable, deriv, matches, match_string, Star,
  stop, more, Language,
}

Language-nullable : (r : Regexp) → nullable r ≡ true → Language r []
unfolding nullable
Language-nullable never h = cc
Language-nullable empty h = refl
Language-nullable (class p) h = cc
Language-nullable (seq r q) h =
    let (a, b) = and_parts (nullable r) (nullable q) h in
    ([], [], refl, Language-nullable r a, Language-nullable q b)
Language-nullable (alt r q) h = elim (or_parts (nullable r) (nullable q) h) [
  | inl a ↦ inl (Language-nullable r a)
  | inr b ↦ inr (Language-nullable q b)
]
Language-nullable (star r) h = stop

Language-deriv : (b : ℕ) (r : Regexp) (s : List ℕ) → Language (deriv b r) s → Language r (b ∷ s)
unfolding deriv
Language-deriv b never s h = h
Language-deriv b empty s h = absurd h
Language-deriv b (class p) s h = elim (Bool-cases (p b)) [
  | inl y ↦ let e : s ≡ [] = rw y at h in (b, ap (λ (t : List ℕ). b ∷ t) e, y)
  | inr n ↦ absurd (rw n at h)
]
Language-deriv b (seq r q) u (inl (s, t, e, hr, hq)) =
    (b ∷ s, t, ap (λ (v : List ℕ). b ∷ v) e, Language-deriv b r s hr, hq)
Language-deriv b (seq r q) u (inr h) = elim (Bool-cases (nullable r)) [
  | inl y ↦ ([], b ∷ u, refl, Language-nullable r y, Language-deriv b q u (rw y at h))
  | inr n ↦ absurd (rw n at h)
]
Language-deriv b (alt r q) s (inl h) = inl (Language-deriv b r s h)
Language-deriv b (alt r q) s (inr h) = inr (Language-deriv b q s h)
Language-deriv b (star r) u (s, t, e, hr, hs) =
    more b s t (ap (λ (v : List ℕ). b ∷ v) e) (Language-deriv b r s hr) hs

sound : (r : Regexp) (s : List ℕ) → matches r s ≡ true → Language r s
unfolding matches
sound r [] h = Language-nullable r h
sound r (b ∷ s) h = Language-deriv b r s (sound (deriv b r) s h)

append-eq-nil : (s t : List ℕ) → [] ≡ s ++ t → (s ≡ []) × (t ≡ [])
append-eq-nil [] t e = (refl, sym e)
append-eq-nil (b ∷ s) t e = cc

nullable-Language : (r : Regexp) → Language r [] → nullable r ≡ true
unfolding nullable
nullable-Language never h = absurd h
nullable-Language empty h = refl
nullable-Language (class p) (b, e, y) = cc
nullable-Language (seq r q) (s, t, e, hr, hq) =
    let (a, b) = append-eq-nil s t e in
    rw
      (nullable-Language r (subst (Language r) a hr), nullable-Language q (subst (Language q) b hq))
nullable-Language (alt r q) (inl h) = rw (nullable-Language r h)
nullable-Language (alt r q) (inr h) = rw (nullable-Language q h) (ground arith)
nullable-Language (star r) h = refl

seq-deriv :
    (b : ℕ) (r q : Regexp) (u s t : List ℕ)
    → b ∷ u ≡ s ++ t
    → Language r s
    → Language q t
    → ((s' : List ℕ) → Language r (b ∷ s') → Language (deriv b r) s')
    → (Language q (b ∷ u) → Language (deriv b q) u)
    → Language (deriv b (seq r q)) u
unfolding deriv
seq-deriv b r q u [] t e hr hq ihr ihq =
    inr (rw (nullable-Language r hr) (ihq (subst (Language q) (sym e) hq)))
seq-deriv b r q u (c ∷ s) t e hr hq ihr ihq =
    let head : c ≡ b = cc in
    let rest : u ≡ s ++ t = cc in
    inl (s, t, rest, ihr s (subst (λ (x : ℕ). Language r (x ∷ s)) head hr), hq)

star-deriv :
    (b : ℕ) (r : Regexp) (u v : List ℕ)
    → v ≡ b ∷ u
    → Star (Language r) v
    → ((s' : List ℕ) → Language r (b ∷ s') → Language (deriv b r) s')
    → Language (deriv b (star r)) u
unfolding deriv
star-deriv b r u v e stop ih = cc
star-deriv b r u v e (more c s t f h hs) ih =
    let head : c ≡ b = cc in
    let rest : u ≡ s ++ t = cc in
    (s, t, rest, ih s (subst (λ (x : ℕ). Language r (x ∷ s)) head h), hs)

deriv-Language : (b : ℕ) (r : Regexp) (s : List ℕ) → Language r (b ∷ s) → Language (deriv b r) s
unfolding deriv
deriv-Language b never s h = absurd h
deriv-Language b empty s h = cc
deriv-Language b (class p) s (c, e, y) =
    let head : b ≡ c = cc in
    let rest : s ≡ [] = cc in
    let y' : p b ≡ true = subst (λ x. p x ≡ true) (sym head) y in rw y' rest
deriv-Language b (seq r q) u (s, t, e, hr, hq) =
    seq-deriv b r q u s t e hr hq (λ s' h. deriv-Language b r s' h) (λ h. deriv-Language b q u h)
deriv-Language b (alt r q) s (inl h) = inl (deriv-Language b r s h)
deriv-Language b (alt r q) s (inr h) = inr (deriv-Language b q s h)
deriv-Language b (star r) s h = star-deriv b r s (b ∷ s) refl h (λ s' h'. deriv-Language b r s' h')

complete : (r : Regexp) (s : List ℕ) → Language r s → matches r s ≡ true
unfolding matches
complete r [] h = nullable-Language r h
complete r (b ∷ s) h = complete (deriv b r) s (deriv-Language b r s h)

-- A text is accepted exactly if it is in the language of the pattern.
pub match_string_iff : (r : Regexp) (s : String) → (match_string r s ≡ true) ↔ Language r (codes s)
unfolding match_string
match_string_iff r s = (sound r (codes s), complete r (codes s))
