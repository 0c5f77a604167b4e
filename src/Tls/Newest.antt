-- ===== src/Tls/Newest.antt =====
-- internal/tlsx/reloader.go: the certificate that is served is the newest of those that could be loaded.
use agent_cred_broker.Prelude.{
  ◌≡◌, refl, ◌⊎◌, inl, inr, ◌≤◌, ◌<◌, true, false, not, ◌&&◌, Option, none, some, some-injective,
  List, [], ◌∷◌, All, arith, Bool-cases,
}
use agent_cred_broker.Time.{Instant, after}
use agent_cred_broker.Tls.{
  Files, Reloader, fresh, load, is_loaded, get_at, get_certificate, serve_all,
}

-- The files held this key pair, with this time, and it could be loaded.
abbrev pub Offers : {C : Type 0} → Files C → Instant → C → Type 0
Offers f m c = (f.modified ≡ some m) × (f.pair ≡ some c)

-- One of the observations has the property.
abbrev pub Some : {C : Type 0} → (Files C → Type 0) → List (Files C) → Type 0
Some P [] = ⊥
Some P (f ∷ fs) = P f ⊎ Some P fs

-- After these observations, the last one first: nothing was offered and nothing is kept, or what is kept
-- was offered, and nothing newer was.
pub data IsNewest {C : Type 0} (seen : List (Files C)) (r : Reloader C) : Type 0 where
  unloaded :
      r.cert ≡ none → All (λ f. (m : Instant) (c : C) → Offers f m c → ⊥) seen → IsNewest seen r
  newest :
      (c : C)
      → r.cert ≡ some c
      → Some (λ f. Offers f r.mod_time c) seen
      → All (λ f. (m : Instant) (d : C) → Offers f m d → m ≤ r.mod_time) seen
      → IsNewest seen r

module _ {C : Type 0} where
  weaken :
      (b b' : Instant) (seen : List (Files C))
      → b ≤ b'
      → All (λ f. (m : Instant) (d : C) → Offers f m d → m ≤ b) seen
      → All (λ f. (m : Instant) (d : C) → Offers f m d → m ≤ b') seen
  weaken b b' [] h a = tt
  weaken b b' (f ∷ seen) h a = ((λ m d o. let x = a.0 m d o in omega arith), weaken b b' seen h a.1)

  never :
      (b : Instant) (seen : List (Files C))
      → All (λ f. (m : Instant) (c : C) → Offers f m c → ⊥) seen
      → All (λ f. (m : Instant) (d : C) → Offers f m d → m ≤ b) seen
  never b [] a = tt
  never b (f ∷ seen) a = ((λ m d o. absurd (a.0 m d o)), never b seen a.1)

  -- An observation that offers nothing changes nothing.
  idle :
      (f : Files C) (seen : List (Files C)) (r : Reloader C)
      → ((m : Instant) (c : C) → Offers f m c → ⊥)
      → IsNewest seen r
      → IsNewest (f ∷ seen) r
  idle f seen r nothing (unloaded e a) = unloaded e (nothing, a)
  idle f seen r nothing (newest c e s a) = newest c e (inr s) ((λ m d o. absurd (nothing m d o)), a)

  load-IsNewest :
      (m : Instant) (pair : Option C) (seen : List (Files C)) (r : Reloader C)
      → ((c : C) → r.cert ≡ some c → r.mod_time < m)
      → IsNewest seen r
      → IsNewest (record { modified = some m; pair = pair } ∷ seen) (load m pair r).1
  unfolding load
  load-IsNewest m none seen r later h =
      idle _ seen r (λ n c o. let bad : none ≡ some c = o.1 in cc) h
  load-IsNewest m (some c) seen r later (unloaded e a) =
      newest c refl (inl (refl, refl))
        ((λ n d o. let same = some-injective m n o.0 in omega arith), never m seen a)
  load-IsNewest m (some c) seen r later (newest d e s a) = newest c refl (inl (refl, refl)) (
    (λ n x o. let same = some-injective m n o.0 in omega arith),
    weaken r.mod_time m seen (let l = later d e in omega arith) a,
  )

  -- A file that is not newer is not read.
  kept-IsNewest :
      (m : Instant) (pair : Option C) (seen : List (Files C)) (r : Reloader C)
      → is_loaded r.cert ≡ true
      → m ≤ r.mod_time
      → IsNewest seen r
      → IsNewest (record { modified = some m; pair = pair } ∷ seen) r
  kept-IsNewest m pair seen r loaded old (unloaded e a) =
      let bad : false ≡ true = rw e at loaded in cc
  kept-IsNewest m pair seen r loaded old (newest c e s a) =
      newest c e (inr s) ((λ n d o. let same = some-injective m n o.0 in omega arith), a)

  get_at-IsNewest :
      (modified : Option Instant) (pair : Option C) (seen : List (Files C)) (r : Reloader C)
      → IsNewest seen r
      → IsNewest (record { modified = modified; pair = pair } ∷ seen) (get_at modified pair r).1
  unfolding get_at
  get_at-IsNewest none pair seen r h =
      idle _ seen r (λ n c o. let bad : none ≡ some n = o.0 in cc) h
  get_at-IsNewest (some m) pair seen r h =
      elim (Bool-cases (is_loaded r.cert && not (after m r.mod_time))) [
        | inl y ↦ rw y (kept-IsNewest m pair seen r (ground arith) (ground arith) h)
        | inr n ↦ rw n (
            load-IsNewest m pair seen r
              (λ c e. let l : is_loaded r.cert ≡ true = rw e refl in ground arith) h)
      ]

  -- The observations in the order of reverse time.
  abbrev pub onto : List (Files C) → List (Files C) → List (Files C)
  onto [] seen = seen
  onto (f ∷ fs) seen = onto fs (f ∷ seen)

  serve_all-IsNewest :
      (fs seen : List (Files C)) (r : Reloader C)
      → IsNewest seen r
      → IsNewest (onto fs seen) (serve_all fs r)
  unfolding serve_all get_certificate
  serve_all-IsNewest [] seen r h = h
  serve_all-IsNewest (f ∷ fs) seen r h =
      serve_all-IsNewest fs (f ∷ seen) (get_certificate f r).1
        (get_at-IsNewest f.modified f.pair seen r h)

  get_at-cert :
      (modified : Option Instant) (pair : Option C) (r : Reloader C)
      → (get_at modified pair r).0 ≡ (get_at modified pair r).1.cert
  unfolding get_at load
  get_at-cert none pair r = refl
  get_at-cert (some m) pair r = elim (Bool-cases (is_loaded r.cert && not (after m r.mod_time))) [
    | inl y ↦ rw y refl
    | inr n ↦ rw n (loaded m pair)
  ]
    where
      loaded : (m : Instant) (pair : Option C) → (load m pair r).0 ≡ (load m pair r).1.cert
      loaded m none = refl
      loaded m (some c) = refl

  -- Whatever was found at the calls before and is found now, GetCertificate serves the key pair with the
  -- latest modification time of all that could be loaded so far, and fails only if none ever could: a bad
  -- rotation keeps the last good certificate.
  pub served-IsNewest :
      (fs : List (Files C)) (f : Files C)
      → let r = serve_all fs fresh in
        ((get_certificate f r).0 ≡ (get_certificate f r).1.cert)
        × IsNewest (f ∷ onto fs []) (get_certificate f r).1
  unfolding get_certificate
  served-IsNewest fs f = (
    get_at-cert f.modified f.pair (serve_all fs fresh),
    get_at-IsNewest f.modified f.pair (onto fs []) (serve_all fs fresh)
        (serve_all-IsNewest fs [] fresh (unloaded refl tt)),
  )
