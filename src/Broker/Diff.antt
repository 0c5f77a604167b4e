-- ===== src/Broker/Diff.antt =====
-- cmd/broker/main.go, diffSorted: the names that are reported are the right ones.
use agent_cred_broker.Prelude.{
  ◌≡◌, ◌↔◌, ◌⊎◌, refl, sym, ◌∙◌, subst, inl, inr, Bool, true, false, List, [], ◌∷◌, String, Assoc,
  lookup, insert, lookup-insert, Bool-cases, str_eq, eq_iff, false≢true,
}
use agent_cred_broker.Broker.{mark_all, is_marked, unmarked, diff_sorted}

-- The name is in the list.
abbrev pub In : String → List String → Type 0
In a [] = ⊥
In a (b ∷ bs) = (b ≡ a) ⊎ In a bs

marked-insert :
    (v w : String) (m : Assoc Bool)
    → (is_marked (insert v true m) w ≡ true) ↔ ((v ≡ w) ⊎ (is_marked m w ≡ true))
marked-insert v w m = elim (Bool-cases (str_eq v w)) [
  | inl y ↦ rw (lookup-insert v w true m, y) ((λ h. inl ((eq_iff v w).0 y)), (λ h. refl))
  | inr n ↦
      rw (lookup-insert v w true m, n)
        ((λ h. inr h), (λ h. elim h [ inl e ↦ let y = (eq_iff v w).1 e in cc | inr k ↦ k ]))
]

marked_iff :
    (vs : List String) (m : Assoc Bool) (w : String)
    → (is_marked (mark_all m vs) w ≡ true) ↔ ((is_marked m w ≡ true) ⊎ In w vs)
unfolding mark_all
marked_iff [] m w = ((λ h. inl h), (λ h. elim h [ inl k ↦ k | inr e ↦ absurd e ]))
marked_iff (v ∷ vs) m w =
    let ih = marked_iff vs (insert v true m) w in
    let here = marked-insert v w m in
    (
      (λ h. elim (ih.0 h) [
        | inl k ↦ elim (here.0 k) [ inl e ↦ inr (inl e) | inr old ↦ inl old ]
        | inr later ↦ inr (inr later)
      ]),
      (λ h. elim h [
        | inl old ↦ ih.1 (inl (here.1 (inr old)))
        | inr found ↦ elim found [
          | inl e ↦ ih.1 (inl (here.1 (inl e)))
          | inr later ↦ ih.1 (inr later)
        ]
      ]),
    )

unmarked_iff :
    (m : Assoc Bool) (vs : List String) (w : String)
    → In w (unmarked m vs) ↔ (In w vs × (is_marked m w ≡ false))
unfolding unmarked
unmarked_iff m [] w = ((λ h. absurd h), (λ h. absurd h.0))
unmarked_iff m (v ∷ vs) w = elim (Bool-cases (is_marked m v)) [
  | inl y ↦ rw y (
    (λ h. let r = (unmarked_iff m vs w).0 h in (inr r.0, r.1)),
    (λ h. elim h.0 [
      | inl e ↦
          let y' : is_marked m w ≡ true = subst (λ x. is_marked m x ≡ true) e y in
          absurd (false≢true (sym h.1 ∙ y'))
      | inr later ↦ (unmarked_iff m vs w).1 (later, h.1)
    ]),
  )
  | inr n ↦ rw n (
    (λ h. elim h [
      | inl e ↦ (inl e, subst (λ x. is_marked m x ≡ false) e n)
      | inr later ↦ let r = (unmarked_iff m vs w).0 later in (inr r.0, r.1)
    ]),
    (λ h. elim h.0 [ inl e ↦ inl e | inr later ↦ inr ((unmarked_iff m vs w).1 (later, h.1)) ]),
  )
]

-- A name that is not among those that were marked is unmarked, and the other way round.
not_marked_iff :
    (vs : List String) (w : String) → (is_marked (mark_all [] vs) w ≡ false) ↔ (¬ In w vs)
unfolding lookup
not_marked_iff vs w = (
  (λ h found. false≢true (sym h ∙ (marked_iff vs [] w).1 (inr found))),
  (λ h. elim (Bool-cases (is_marked (mark_all [] vs) w)) [
    | inl y ↦ elim ((marked_iff vs [] w).0 y) [
      | inl e ↦ absurd (false≢true e)
      | inr found ↦ absurd (h found)
    ]
    | inr n ↦ n
  ]),
)

part_iff :
    (old next : List String) (w : String)
    → In w (unmarked (mark_all [] old) next) ↔ (In w next × (¬ In w old))
part_iff old next w =
    let u = unmarked_iff (mark_all [] old) next w in
    let n = not_marked_iff old w in
    ((λ h. let r = u.0 h in (r.0, n.0 r.1)), (λ h. u.1 (h.0, n.1 h.1)))

-- The names that diffSorted reports as added are exactly those of the next policy that the old one lacks,
-- and as removed exactly those of the old one that the next lacks.
pub diff_sorted_iff :
    (old next : List String) (w : String)
    → (In w (diff_sorted old next).0 ↔ (In w next × (¬ In w old)))
      × (In w (diff_sorted old next).1 ↔ (In w old × (¬ In w next)))
unfolding diff_sorted
diff_sorted_iff old next w = (part_iff old next w, part_iff next old w)
