-- ===== src/Policy/Listing/Sorted.antt =====
-- internal/policy/policy.go: a listing is sorted, and loses nothing.
use agent_cred_broker.Prelude.{
  ◌≡◌, refl, sym, ◌∙◌, subst, inl, inr, true, false, Option, none, some, List, [], ◌∷◌, String,
  Assoc, lookup, Entries, str_eq, eq_iff, Bool-cases, arith, if◌then◌else◌,
}
use agent_cred_broker.Policy.Listing.{text_leb, put_in_order, sort_by, values}

text_leb_refl : (s : String) → text_leb s s ≡ true
unfolding text_leb
text_leb_refl String.[] = refl
text_leb_refl (String.◌∷◌ c s) = ground (arith, text_leb_refl s)

-- Of two texts one is not after the other.
text_leb_total : (s t : String) → text_leb s t ≡ false → text_leb t s ≡ true
unfolding text_leb
text_leb_total String.[] t h = cc
text_leb_total (String.◌∷◌ c s) String.[] h = refl
text_leb_total (String.◌∷◌ c s) (String.◌∷◌ d t) h = ground (arith, text_leb_total s t)

apart : (a b s : String) → text_leb a b ≡ false → str_eq a s ≡ true → str_eq b s ≡ false
apart a b s n y = elim (Bool-cases (str_eq b s)) [
  | inl z ↦
      let same : a ≡ b = (eq_iff a s).0 y ∙ sym ((eq_iff b s).0 z) in
      let le : text_leb a b ≡ true = subst (λ t. text_leb a t ≡ true) same (text_leb_refl a) in cc
  | inr w ↦ w
]

module _ {A : Type 0} (name : A → String) where
  -- The name is not after the first of the list.
  abbrev pub Before : String → List A → Type 0
  Before s [] = Unit
  Before s (y ∷ ys) = text_leb s (name y) ≡ true

  abbrev pub InOrder : List A → Type 0
  InOrder [] = Unit
  InOrder (x ∷ xs) = Before (name x) xs × InOrder xs

  put-Before :
      (s : String) (x : A) (ys : List A)
      → text_leb s (name x) ≡ true
      → Before s ys
      → Before s (put_in_order name x ys)
  unfolding put_in_order
  put-Before s x [] h b = h
  put-Before s x (y ∷ ys) h b = elim (Bool-cases (text_leb (name x) (name y))) [
    | inl e ↦ rw (e, put_in_order) h
    | inr n ↦ rw (n, put_in_order) b
  ]

  put-InOrder : (x : A) (ys : List A) → InOrder ys → InOrder (put_in_order name x ys)
  unfolding put_in_order
  put-InOrder x [] o = (tt, tt)
  put-InOrder x (y ∷ ys) o = elim (Bool-cases (text_leb (name x) (name y))) [
    | inl e ↦ rw (e, put_in_order) (e, o)
    | inr n ↦
        rw (n, put_in_order)
          (put-Before (name y) x ys (text_leb_total (name x) (name y) n) o.0, put-InOrder x ys o.1)
  ]

  pub sort_by-InOrder : (xs : List A) → InOrder (sort_by name xs)
  unfolding sort_by
  sort_by-InOrder [] = tt
  sort_by-InOrder (x ∷ xs) = put-InOrder x (sort_by name xs) (sort_by-InOrder xs)

  -- The first of this name.
  abbrev pub find : String → List A → Option A
  find s [] = none
  find s (x ∷ xs) = let later = find s xs in if str_eq (name x) s then some x else later

  -- Two tests, of which at most one holds, in either order.
  swapped :
      (s : String) (x y : A) (r : Option A)
      → text_leb (name x) (name y) ≡ false
      → (if str_eq (name y) s then some y else (if str_eq (name x) s then some x else r))
        ≡ (if str_eq (name x) s then some x else (if str_eq (name y) s then some y else r))
  swapped s x y r n = elim (Bool-cases (str_eq (name x) s)) [
    | inl e ↦ rw (e, apart (name x) (name y) s n e) refl
    | inr f ↦ rw f refl
  ]

  find-put :
      (s : String) (x : A) (ys : List A)
      → find s (put_in_order name x ys) ≡ (if str_eq (name x) s then some x else find s ys)
  unfolding put_in_order
  find-put s x [] = refl
  find-put s x (y ∷ ys) = elim (Bool-cases (text_leb (name x) (name y))) [
    | inl e ↦ rw (e, put_in_order) refl
    | inr n ↦ rw (n, put_in_order) (rw (find-put s x ys) (swapped s x y (find s ys) n))
  ]

  -- Each value stands under its own name.
  abbrev pub Named : Assoc A → Type 0
  Named = Entries (λ k v. name v ≡ k)

  pub find-sort_by :
      (s : String) (m : Assoc A) → Named m → find s (sort_by name (values m)) ≡ lookup s m
  unfolding sort_by lookup
  find-sort_by s [] h = refl
  find-sort_by s ((k, v) ∷ m) h =
      let ih = find-sort_by s m h.1 in find-put s v (sort_by name (values m)) ∙ rw (h.0, ih) refl
