-- ===== src/Prelude/Splits.antt =====
-- What the code uses of Go's packages strings and unicode to split and to trim texts.
use Prim.Native.Nat.{ℕ}
use Prim.Native.Char.{Char, code}
use Prim.Native.String.{String, ◌++◌ as append_text}
use mathlib.Core.Path.{◌≡◌, refl, sym, ◌∙◌}
use mathlib.Core.Logic.{inl, inr}
use mathlib.Core.Bool.{Bool, true, false, ◌&&◌, ◌||◌}
use mathlib.Core.Option.{none, some, some-injective}
use mathlib.Core.List.{List, [], ◌∷◌}
use native.Mathlib.Omega.{arith}
use text.Mathlib.Text.{◌==◌ as str_eq}
use text.Mathlib.TextEquality.{Char-path}
use agent_cred_broker.Prelude.Tests.{◌==◌, leb, if◌then◌else◌, Bool-cases, Option-cases}
use agent_cred_broker.Prelude.Lists.{All}
use agent_cred_broker.Prelude.Texts.{Free, Lacks, cut_prefix, append-nil_text, append-cons_text}

-- unicode.IsSpace
unfoldable pub is_space : ℕ → Bool
is_space c =
    (leb 9 c && leb c 13)
    || (c == 32)
    || (c == 133)
    || (c == 160)
    || (c == 5760)
    || (leb 8192 c && leb c 8202)
    || (c == 8232)
    || (c == 8233)
    || (c == 8239)
    || (c == 8287)
    || (c == 12288)

-- TrimLeftFunc and TrimRightFunc
unfoldable pub trim_left : (ℕ → Bool) → String → String
trim_left p String.[] = ""
trim_left p (String.◌∷◌ c s) =
    let rest = trim_left p s in if p (code c) then rest else String.◌∷◌ c s

unfoldable pub trim_right : (ℕ → Bool) → String → String
trim_right p String.[] = ""
trim_right p (String.◌∷◌ c s) =
    let rest = trim_right p s in if p (code c) && str_eq rest "" then "" else String.◌∷◌ c rest

-- TrimSpace
unfoldable pub trim_space : String → String
trim_space s = trim_right is_space (trim_left is_space s)

-- HasPrefix
unfoldable pub has_prefix : String → String → Bool
has_prefix p s = elim (cut_prefix p s) [ none ↦ false | some rest ↦ true ]

-- Split at the characters of this code: the first part, and the others.
unfoldable pub split : ℕ → String → String × List String
split sep String.[] = ("", [])
split sep (String.◌∷◌ c s) =
    let rest = split sep s in
    if code c == sep then ("", rest.0 ∷ rest.1) else (String.◌∷◌ c rest.0, rest.1)

-- Join with this character.
abbrev pub join : Char → List String → String
join c [] = ""
join c (s ∷ []) = s
join c (s ∷ t ∷ ts) = append_text s (String.◌∷◌ c (join c (t ∷ ts)))

-- A text with no space stays as it is.
trim_left-Free : (p : ℕ → Bool) (s : String) → Free p s → trim_left p s ≡ s
unfolding trim_left
trim_left-Free p String.[] h = refl
trim_left-Free p (String.◌∷◌ c s) h = rw h.0 refl

trim_right-Free : (p : ℕ → Bool) (s : String) → Free p s → trim_right p s ≡ s
unfolding trim_right
trim_right-Free p String.[] h = refl
trim_right-Free p (String.◌∷◌ c s) h = rw (h.0, trim_right-Free p s h.1) refl

pub trim_space-Free : (s : String) → Free is_space s → trim_space s ≡ s
unfolding trim_space
trim_space-Free s h = rw (trim_left-Free is_space s h) (trim_right-Free is_space s h)

-- A text without the separator is one part.
pub split_whole : (sep : ℕ) (s : String) → Lacks sep s → split sep s ≡ (s, [])
unfolding split
split_whole sep String.[] h = refl
split_whole sep (String.◌∷◌ c s) h = rw (h.0, split_whole sep s h.1) refl

pub split_joined :
    (sep : ℕ) (c : Char) (s t : String)
    → (code c == sep) ≡ true
    → Lacks sep s
    → split sep (append_text s (String.◌∷◌ c t)) ≡ (s, (split sep t).0 ∷ (split sep t).1)
unfolding split
split_joined sep c String.[] t e h = rw (append-nil_text (String.◌∷◌ c t), split) (rw e refl)
split_joined sep c (String.◌∷◌ d s) t e h =
    let ih = split_joined sep c s t e h.1 in
    rw (append-cons_text d s (String.◌∷◌ c t), split) (rw (h.0, ih) refl)

-- Splitting what was joined gives the parts back.
pub split-join :
    (sep : ℕ) (c : Char) (s : String) (ts : List String)
    → (code c == sep) ≡ true
    → All (Lacks sep) (s ∷ ts)
    → split sep (join c (s ∷ ts)) ≡ (s, ts)
split-join sep c s [] e h = split_whole sep s h.0
split-join sep c s (t ∷ ts) e h =
    let ih = split-join sep c t ts e h.1 in
    rw (split_joined sep c s (join c (t ∷ ts)) e h.0, ih) refl

-- What is cut off is a prefix.
pub cut_prefix_exact : (p s rest : String) → cut_prefix p s ≡ some rest → s ≡ append_text p rest
unfolding cut_prefix
cut_prefix_exact String.[] s rest h = some-injective s rest h ∙ sym (append-nil_text rest)
cut_prefix_exact (String.◌∷◌ c p) String.[] rest h = cc
cut_prefix_exact (String.◌∷◌ c p) (String.◌∷◌ d s) rest h = elim (Bool-cases (code c == code d)) [
  | inl y ↦
      let ih = cut_prefix_exact p s rest (rw y at h) in
      let same : c ≡ d = Char-path c d (ground arith) in
      rw (append-cons_text c p rest, ← same, ih) refl
  | inr n ↦ let bad : none ≡ some rest = rw n at h in cc
]

-- HasPrefix: the text is the prefix and a rest.
pub has_prefix-exact :
    (p s : String) → has_prefix p s ≡ true → (rest : String) × (s ≡ append_text p rest)
unfolding has_prefix
has_prefix-exact p s h = elim (Option-cases (cut_prefix p s)) [
  | inl n ↦ let bad : false ≡ true = rw (n, has_prefix) at h in cc
  | inr (rest, e) ↦ (rest, cut_prefix_exact p s rest e)
]
