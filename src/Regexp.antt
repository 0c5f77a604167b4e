-- ===== src/Regexp.antt =====
-- What the policy packages use of Go's package regexp: patterns that are anchored at both ends, over
-- the code points of a text, decided by derivatives.
pub mod Correct
use Prim.Native.Char.{code}
use agent_cred_broker.Prelude.{
  ℕ, zero, suc, ◌≡◌, Bool, true, false, ◌&&◌, ◌||◌, List, [], ◌∷◌, ◌++◌, String, ◌⊎◌, ◌==◌, leb,
  if◌then◌else◌,
}

pub data Regexp : Type 0 where
  never empty : Regexp
  class : (ℕ → Bool) → Regexp
  seq alt : Regexp → Regexp → Regexp
  star : Regexp → Regexp

-- The code points of a text.
abbrev pub codes : String → List ℕ
codes String.[] = []
codes (String.◌∷◌ c s) = code c ∷ codes s

unfoldable pub nullable : Regexp → Bool
nullable never = false
nullable empty = true
nullable (class p) = false
nullable (seq r q) = nullable r && nullable q
nullable (alt r q) = nullable r || nullable q
nullable (star r) = true

-- What may follow after one code point.
unfoldable pub deriv : ℕ → Regexp → Regexp
unfolding nullable
deriv b never = never
deriv b empty = never
deriv b (class p) = if p b then empty else never
deriv b (seq r q) = alt (seq (deriv b r) q) (if nullable r then deriv b q else never)
deriv b (alt r q) = alt (deriv b r) (deriv b q)
deriv b (star r) = seq (deriv b r) (star r)

unfoldable pub matches : Regexp → List ℕ → Bool
unfolding deriv
matches r [] = nullable r
matches r (b ∷ s) = matches (deriv b r) s

-- MatchString of ^r$
unfoldable pub match_string : Regexp → String → Bool
unfolding matches
match_string r s = matches r (codes s)

-- r+
abbrev pub plus : Regexp → Regexp
plus r = seq r (star r)

-- r?
abbrev pub optional : Regexp → Regexp
optional r = alt r empty

-- r{n}
abbrev pub times : ℕ → Regexp → Regexp
times zero r = empty
times (suc n) r = seq r (times n r)

abbrev pub chars : List ℕ → Regexp
chars [] = empty
chars (b ∷ s) = seq (class (λ c. c == b)) (chars s)

abbrev pub literal : String → Regexp
literal s = chars (codes s)

-- Zero or more words of a language.
pub data Star (P : List ℕ → Type 0) : List ℕ → Type 0 where
  stop : Star P []
  more : (b : ℕ) (s t : List ℕ) {u : List ℕ} → u ≡ b ∷ (s ++ t) → P (b ∷ s) → Star P t → Star P u

-- The language of a pattern.
abbrev pub Language : Regexp → List ℕ → Type 0
Language never s = ⊥
Language empty s = s ≡ []
Language (class p) s = (b : ℕ) × (s ≡ b ∷ []) × (p b ≡ true)
Language (seq r q) u = (s : List ℕ) × (t : List ℕ) × (u ≡ s ++ t) × Language r s × Language q t
Language (alt r q) s = Language r s ⊎ Language q s
Language (star r) s = Star (Language r) s
