-- ===== src/Provider/GitHub/Codes.antt =====
-- Texts by their code points: prefixes, cuts and splits, as the patterns of the policy describe them.
use Prim.Native.Char.{code}
use agent_cred_broker.Prelude.{
  ℕ, ◌≡◌, refl, inl, inr, ◌⊎◌, Bool, true, false, ◌==◌, some, List, [], ◌∷◌, ◌++◌, All, String, cut,
  cut_prefix, Free, split, arith, ==_iff,
}
use agent_cred_broker.Regexp.{codes, chars, Language}
use agent_cred_broker.Provider.GitHub.{}

-- The language of a literal is the literal.
pub chars-Language : (s u : List ℕ) → Language (chars s) u → u ≡ s
chars-Language [] u h = h
chars-Language (b ∷ s) u (v, w, e, (d, f, y), rest) =
    let same : d ≡ b = ground (arith, ==_iff d b) in rw (e, f, same, chars-Language s w rest) refl

pub cut_prefix-codes :
    (p s : String) (t : List ℕ)
    → codes s ≡ codes p ++ t
    → (rest : String) × (cut_prefix p s ≡ some rest)
unfolding cut_prefix
cut_prefix-codes String.[] s t e = (s, refl)
cut_prefix-codes (String.◌∷◌ c p) String.[] t e = cc
cut_prefix-codes (String.◌∷◌ c p) (String.◌∷◌ d s) t e =
    let head : code d ≡ code c = cc in
    let (rest, found) = cut_prefix-codes p s t (cc) in
    let same : (code c == code d) ≡ true = ground (arith, ==_iff (code c) (code d)) in
    (rest, rw (same, found) refl)

-- The properties of a text, from its code points.
pub Free-codes : (p : ℕ → Bool) (s : String) → All (λ b. p b ≡ false) (codes s) → Free p s
Free-codes p String.[] h = tt
Free-codes p (String.◌∷◌ c s) h = (h.0, Free-codes p s h.1)

pub All-append : {A : Type 0} (P : A → Type 0) (s t : List A) → All P s → All P t → All P (s ++ t)
All-append P [] t a b = b
All-append P (x ∷ s) t a b = (a.0, All-append P s t a.1 b)

pub All-map :
    {A : Type 0} {P Q : A → Type 0} (s : List A) → ((x : A) → P x → Q x) → All P s → All Q s
All-map [] f a = tt
All-map (x ∷ s) f a = (f x a.0, All-map s f a.1)

-- The first part of a text whose code points are those of the part, and then nothing or the separator.
pub split-codes :
    (sep : ℕ) (s : String) (a b : List ℕ)
    → codes s ≡ a ++ b
    → All (λ c. (c == sep) ≡ false) a
    → (b ≡ []) ⊎ ((t : List ℕ) × (b ≡ sep ∷ t))
    → codes (split sep s).0 ≡ a
unfolding split
split-codes sep String.[] [] b e h end = refl
split-codes sep String.[] (x ∷ a) b e h end = cc
split-codes sep (String.◌∷◌ c s) [] b e h (inl n) = cc
split-codes sep (String.◌∷◌ c s) [] b e h (inr (t, m)) =
    let at : code c ≡ sep = cc in
    let hit : (code c == sep) ≡ true = ground (arith, ==_iff (code c) sep) in rw hit refl
split-codes sep (String.◌∷◌ c s) (x ∷ a) b e h end =
    let at : code c ≡ x = cc in
    let miss : (code c == sep) ≡ false = rw at h.0 in
    let ih = split-codes sep s a b (cc) h.1 end in rw (miss, at, ih) refl

pub cut-codes :
    (sep : ℕ) (s : String) (k v : List ℕ)
    → codes s ≡ k ++ sep ∷ v
    → All (λ c. (c == sep) ≡ false) k
    → (a : String) × (b : String) × (cut sep s ≡ some (a, b)) × (codes a ≡ k) × (codes b ≡ v)
unfolding cut
cut-codes sep String.[] [] v e h = cc
cut-codes sep String.[] (x ∷ k) v e h = cc
cut-codes sep (String.◌∷◌ c s) [] v e h =
    let hit : (code c == sep) ≡ true = ground (arith, ==_iff (code c) sep) in
    ("", s, rw hit refl, refl, (cc))
cut-codes sep (String.◌∷◌ c s) (x ∷ k) v e h =
    let at : code c ≡ x = cc in
    let miss : (code c == sep) ≡ false = rw at h.0 in
    let (a, b, found, first, second) = cut-codes sep s k v (cc) h.1 in
    (String.◌∷◌ c a, b, rw (miss, found) refl, rw (at, first) refl, second)
