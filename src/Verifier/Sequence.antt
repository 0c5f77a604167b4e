-- ===== src/Verifier/Sequence.antt =====
-- cmd/acb-verify/main.go: what the counts of gaps and duplicates say of the sequence numbers.
use mathlib.Core.List.{Perm, Permᴰ}
use mathlib.Core.Logic.{∥∥₁_elim}
use mathlib.Core.Path.{ap₂, subst, ◌∙◌}
use mathlib.Core.List.Perm
use agent_cred_broker.Prelude.{
  ℕ, zero, suc, ◌+◌, ◌-◌, ◌≤◌, ◌≡◌, refl, ◌↔◌, List, [], ◌∷◌, length, arith, Bool-cases, inl, inr,
  leb, ap,
}
use agent_cred_broker.Verifier.{insert_sorted, sort, Breaks, note, survey_from, survey}

-- The n numbers from s on.
abbrev pub consecutive : ℕ → ℕ → List ℕ
consecutive s zero = []
consecutive s (suc n) = s ∷ consecutive (suc s) n

insert_sorted-perm : (q : ℕ) (qs : List ℕ) → Perm (q ∷ qs) (insert_sorted q qs)
unfolding insert_sorted
insert_sorted-perm q [] = Perm.refl _
insert_sorted-perm q (r ∷ rs) = elim (Bool-cases (leb q r)) [
  | inl y ↦ rw (y, insert_sorted) (Perm.refl _)
  | inr n ↦
      rw (n, insert_sorted) (Perm.trans (Perm.swap r q rs) (Perm.cons r (insert_sorted-perm q rs)))
]

pub sort-perm : (qs : List ℕ) → Perm qs (sort qs)
unfolding sort
sort-perm [] = Perm.refl []
sort-perm (q ∷ qs) = Perm.trans (Perm.cons q (sort-perm qs)) (insert_sorted-perm q (sort qs))

-- Each entry is at least the one before.
abbrev pub Ascending : ℕ → List ℕ → Type 0
Ascending p [] = Unit
Ascending p (q ∷ qs) = (p ≤ q) × Ascending q qs

Ascending-insert :
    (p q : ℕ) (qs : List ℕ) → p ≤ q → Ascending p qs → Ascending p (insert_sorted q qs)
unfolding insert_sorted
Ascending-insert p q [] h a = (h, tt)
Ascending-insert p q (r ∷ rs) h a = elim (Bool-cases (leb q r)) [
  | inl y ↦ rw (y, insert_sorted) (h, (ground arith, a.1))
  | inr n ↦ rw (n, insert_sorted) (a.0, Ascending-insert r q rs (ground arith) a.1)
]

Ascending-sort : (qs : List ℕ) → Ascending 0 (sort qs)
unfolding sort
Ascending-sort [] = tt
Ascending-sort (q ∷ qs) = Ascending-insert 0 q (sort qs) (omega arith) (Ascending-sort qs)

abbrev total : Breaks → ℕ
total b = b.gaps + b.dups

total-note : (d : ℕ) (b : Breaks) → total b ≤ total (note d b)
unfolding note
total-note d b = ground arith

total-survey_from : (p : ℕ) (qs : List ℕ) (b : Breaks) → total b ≤ total (survey_from p qs b)
unfolding survey_from
total-survey_from p [] b = omega arith
total-survey_from p (q ∷ qs) b =
    omega (arith, total-note (q - p) b, total-survey_from q qs (note (q - p) b))

note_clean : (p q : ℕ) (b : Breaks) → p ≤ q → total (note (q - p) b) ≤ total b → q ≡ suc p
unfolding note
note_clean p q b h t = ground arith

note_next : (p : ℕ) (b : Breaks) → note (suc p - p) b ≡ b
unfolding note
note_next p b = ground arith

survey_from-consecutive : (p n : ℕ) (b : Breaks) → survey_from p (consecutive (suc p) n) b ≡ b
unfolding survey_from
survey_from-consecutive p zero b = refl
survey_from-consecutive p (suc n) b =
    rw (note_next p b, survey_from) (survey_from-consecutive (suc p) n b)

clean-consecutive :
    (p : ℕ) (qs : List ℕ) (b : Breaks)
    → Ascending p qs
    → total (survey_from p qs b) ≤ total b
    → qs ≡ consecutive (suc p) (length qs)
unfolding survey_from
clean-consecutive p [] b a t = refl
clean-consecutive p (q ∷ qs) b a t =
    let e : q ≡ suc p =
      note_clean p q b a.0 (omega (arith, total-survey_from q qs (note (q - p) b))) in
    let rest = clean-consecutive q qs (note (q - p) b) a.1 (omega (arith, total-note (q - p) b)) in
    cc (e, rest)

insert_sorted_comm :
    (p q : ℕ) (rs : List ℕ)
    → insert_sorted p (insert_sorted q rs) ≡ insert_sorted q (insert_sorted p rs)
unfolding insert_sorted
insert_sorted_comm p q [] = ground arith
insert_sorted_comm p q (r ∷ rs) = ground (arith, insert_sorted_comm p q rs)

sort_of_permᴰ : {ps qs : List ℕ} → Permᴰ ps qs → sort ps ≡ sort qs
unfolding sort
sort_of_permᴰ Permᴰ.nil = refl
sort_of_permᴰ (Permᴰ.cons {a = a} {b = b} e d) = ap₂ insert_sorted e (sort_of_permᴰ d)
sort_of_permᴰ (Permᴰ.swap {a = a} {b = b} {l = l} e f) =
    ap₂ (λ x y. insert_sorted x (insert_sorted y (sort l))) e f ∙ insert_sorted_comm _ _ (sort l)
sort_of_permᴰ (Permᴰ.trans d e) = sort_of_permᴰ d ∙ sort_of_permᴰ e

lists_are_a_set : IsSet (List ℕ)
lists_are_a_set = hlevel

-- Sorting forgets the order of arrival.
pub sort_of_perm : {ps qs : List ℕ} → Perm ps qs → sort ps ≡ sort qs
sort_of_perm p = ∥∥₁_elim p (lists_are_a_set _ _) (λ d. sort_of_permᴰ d)

insert_sorted-consecutive :
    (s n : ℕ) → insert_sorted s (consecutive (suc s) n) ≡ consecutive s (suc n)
unfolding insert_sorted
insert_sorted-consecutive s zero = refl
insert_sorted-consecutive s (suc n) = ground arith

sort-consecutive : (s n : ℕ) → sort (consecutive s n) ≡ consecutive s n
unfolding sort
sort-consecutive s zero = refl
sort-consecutive s (suc n) = rw (sort-consecutive (suc s) n) (insert_sorted-consecutive s n)

survey-consecutive : (s n : ℕ) (b : Breaks) → survey (consecutive s n) b ≡ b
unfolding survey
survey-consecutive s zero b = refl
survey-consecutive s (suc n) b = survey_from-consecutive s n b

abbrev pub no_breaks : Breaks
no_breaks = record { gaps = 0; dups = 0 }

consecutive_of_clean :
    (qs : List ℕ)
    → Ascending 0 qs
    → survey qs no_breaks ≡ no_breaks
    → (s : ℕ) × (n : ℕ) × (qs ≡ consecutive s n)
unfolding survey
consecutive_of_clean [] a e = (0, 0, refl)
consecutive_of_clean (q ∷ qs) a e = (
  q,
  suc (length qs),
  ap (λ (l : List ℕ). q ∷ l) (clean-consecutive q qs no_breaks a.1 (omega (arith, ap total e))),
)

-- In whatever order the events of an instance arrive, no gap and no duplicate is counted exactly if
-- their sequence numbers are, up to order, consecutive: none is missing between the least and the
-- greatest, and none comes twice.
pub no_breaks_iff :
    (qs : List ℕ)
    → (survey (sort qs) no_breaks ≡ no_breaks) ↔ ((s : ℕ) × (n : ℕ) × Perm qs (consecutive s n))
no_breaks_iff qs = (
  (λ e.
      let (s, n, f) = consecutive_of_clean (sort qs) (Ascending-sort qs) e in
      (s, n, subst (Perm qs) f (sort-perm qs))),
  (λ r.
      let (s, n, p) = r in
      rw (sort_of_perm p, sort-consecutive s n) (survey-consecutive s n no_breaks)),
)

-- The count of one instance whose numbers are consecutive adds nothing.
pub survey-sort-consecutive : (s n : ℕ) (b : Breaks) → survey (sort (consecutive s n)) b ≡ b
survey-sort-consecutive s n b = rw (sort-consecutive s n) (survey-consecutive s n b)
