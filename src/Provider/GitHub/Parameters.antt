-- ===== src/Provider/GitHub/Parameters.antt =====
-- internal/provider/github.go: parsePermissions and parseList read back what is written with commas.
use Prim.Native.Char.{Char, code}
use Prim.Native.String.{◌++◌ as append_text}
use agent_cred_broker.Prelude.{
  ℕ, ◌≡◌, ◌≢◌, refl, sym, ap, ◌∙◌, Bool, false, ◌==◌, none, some, List, [], ◌∷◌, ◌++◌, map,
  append-nil, append_assoc, All, String, Assoc, lookup, insert, lookup-insert, Unique, str_eq,
  eq_iff, str_ne, cut_joined, Free, Lacks, is_space, trim_left, trim_right, trim_space,
  trim_space-Free, split, join, split-join, arith, append-cons_text, append-nil_text, Bool-cases,
  inl, inr,
}
use agent_cred_broker.Provider.GitHub.{
  permission_of, store_permission, add_permissions, parse_permissions, trimmed, parse_list,
}

-- A text as it stands between two separators: not empty, with no space and no comma.
pub record IsItem (s : String) : Type 0 where
  pub full : s ≢ ""
  pub solid : Free is_space s
  pub whole : Lacks 44 s

trimmed-items : (ts : List String) → All IsItem ts → trimmed ts ≡ ts
unfolding trimmed
trimmed-items [] h = refl
trimmed-items (t ∷ ts) h =
    let same = trim_space-Free t h.0.solid in
    rw (same, str_ne t "" h.0.full, trimmed-items ts h.1) refl

items-Lack : (ts : List String) → All IsItem ts → All (Lacks 44) ts
items-Lack [] h = tt
items-Lack (t ∷ ts) h = (h.0.whole, items-Lack ts h.1)

abbrev pub comma : Char
comma = ","

-- parseList gives back any list of items that were joined with commas.
pub parse_list-join : (ts : List String) → All IsItem ts → parse_list (join comma ts) ≡ ts
unfolding parse_list split trimmed trim_space trim_left trim_right
parse_list-join [] h = refl
parse_list-join (t ∷ ts) h =
    rw (split-join 44 comma t ts refl (items-Lack (t ∷ ts) h)) (trimmed-items (t ∷ ts) h)

-- A permission: a name and a level with no space, comma or equals sign.
pub record IsPermission (p : String × String) : Type 0 where
  pub named : p.0 ≢ ""
  pub name_solid : Free is_space p.0
  pub name_whole : Lacks 44 p.0
  pub name_lacks : Lacks 61 p.0
  pub level : p.1 ≢ ""
  pub level_solid : Free is_space p.1
  pub level_whole : Lacks 44 p.1

abbrev equals : Char
equals = "="

-- name=level
abbrev pub print_permission : String × String → String
print_permission p = append_text p.0 (String.◌∷◌ equals p.1)

Free-append :
    (p : ℕ → Bool) (s : String) (c : Char) (t : String)
    → Free p s
    → p (code c) ≡ false
    → Free p t
    → Free p (append_text s (String.◌∷◌ c t))
Free-append p String.[] c t h e k = rw (append-nil_text (String.◌∷◌ c t)) (e, k)
Free-append p (String.◌∷◌ d s) c t h e k =
    rw (append-cons_text d s (String.◌∷◌ c t)) (h.0, Free-append p s c t h.1 e k)

append-ne-nil : (s : String) (c : Char) (t : String) → append_text s (String.◌∷◌ c t) ≢ ""
append-ne-nil String.[] c t e = let e' = rw (append-nil_text (String.◌∷◌ c t)) at e in cc
append-ne-nil (String.◌∷◌ d s) c t e =
    let e' = rw (append-cons_text d s (String.◌∷◌ c t)) at e in cc

permission_of-print :
    (p : String × String) → IsPermission p → permission_of (print_permission p) ≡ some p
unfolding permission_of is_space
permission_of-print (k, v) h =
    let solid = Free-append is_space k equals v h.name_solid refl h.level_solid in
    let same = trim_space-Free (print_permission (k, v)) solid in
    let full = str_ne (print_permission (k, v)) "" (append-ne-nil k equals v) in
    let found = cut_joined 61 equals k v refl h.name_lacks in
    rw (same, full, found)
      (rw
        (
          trim_space-Free k h.name_solid,
          trim_space-Free v h.level_solid,
          str_ne k "" h.named,
          str_ne v "" h.level,
        )
        refl)

insert-fresh :
    (k v : String) (m : Assoc String) → lookup k m ≡ none → insert k v m ≡ m ++ (k, v) ∷ []
unfolding insert lookup
insert-fresh k v [] h = refl
insert-fresh k v ((j, w) ∷ m) h = elim (Bool-cases (str_eq j k)) [
  | inl y ↦ let bad : some w ≡ none = rw (y, lookup) at h in cc
  | inr n ↦ rw (n, insert-fresh k v m (rw (n, lookup) at h)) refl
]

absent-insert :
    (k v : String) (m ps : Assoc String)
    → All (λ p. lookup p.0 m ≡ none) ps
    → lookup k ps ≡ none
    → All (λ p. lookup p.0 (insert k v m) ≡ none) ps
unfolding lookup
absent-insert k v m [] h fresh = tt
absent-insert k v m ((j, w) ∷ ps) h fresh = elim (Bool-cases (str_eq j k)) [
  | inl y ↦ let bad : some w ≡ none = rw (y, lookup) at fresh in cc
  | inr n ↦
      let apart : str_eq k j ≡ false = ground (arith, eq_iff j k, eq_iff k j) in
      (rw (lookup-insert k j v m, apart) h.0, absent-insert k v m ps h.1 (rw (n, lookup) at fresh))
]

add_permissions-print :
    (m ps : Assoc String)
    → All IsPermission ps
    → All (λ p. lookup p.0 m ≡ none) ps
    → Unique ps
    → add_permissions m (map print_permission ps) ≡ m ++ ps
unfolding add_permissions store_permission
add_permissions-print m [] h fresh u = sym (append-nil m)
add_permissions-print m ((k, v) ∷ ps) h fresh u =
    let put = insert-fresh k v m fresh.0 in
    let ih = add_permissions-print (insert k v m) ps h.1 (absent-insert k v m ps fresh.1 u.0) u.1 in
    ap (λ o. add_permissions (store_permission o m) (map print_permission ps))
      (permission_of-print (k, v) h.0)
    ∙ ih
    ∙ ap (λ (n : Assoc String). n ++ ps) put
    ∙ append_assoc m ((k, v) ∷ []) ps

none_stored : (ps : Assoc String) → All (λ p. lookup {V = String} p.0 [] ≡ none) ps
unfolding lookup
none_stored [] = tt
none_stored (p ∷ ps) = (refl, none_stored ps)

prints-Lack : (ps : Assoc String) → All IsPermission ps → All (Lacks 44) (map print_permission ps)
prints-Lack [] h = tt
prints-Lack ((k, v) ∷ ps) h =
    (Free-append (λ c. c == 44) k equals v h.0.name_whole refl h.0.level_whole, prints-Lack ps h.1)

parse_nothing : parse_permissions "" ≡ []
unfolding parse_permissions split trim_space trim_left trim_right add_permissions permission_of
    store_permission
parse_nothing = refl

-- parsePermissions gives back the permissions, in their order, from their text name=level,name=level,...
-- Each name stands once, and names and levels are not empty and hold no space, no comma and, the
-- names, no equals sign.
pub parse_permissions-print :
    (ps : Assoc String)
    → All IsPermission ps
    → Unique ps
    → parse_permissions (join comma (map print_permission ps)) ≡ ps
unfolding parse_permissions
parse_permissions-print [] h u = parse_nothing
parse_permissions-print (p ∷ ps) h u =
    let parts =
      split-join 44 comma (print_permission p) (map print_permission ps) refl
        (prints-Lack (p ∷ ps) h) in
    rw parts (add_permissions-print [] (p ∷ ps) h (none_stored (p ∷ ps)) u)
