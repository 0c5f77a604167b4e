-- ===== src/Tls.antt =====
-- internal/tlsx/reloader.go: the certificate that the two programs serve. What Stat and LoadX509KeyPair
-- find is an observation of the files, and the mutex makes GetCertificate one step.
pub mod Newest
use agent_cred_broker.Prelude.{
  Bool, true, false, not, ◌&&◌, Option, none, some, List, [], ◌∷◌, ltb, if◌then◌else◌,
}
use agent_cred_broker.Time.{Instant, after}

-- The files at one call: the modification time of the certificate, or an error, and the key pair, or an
-- error.
pub record Files (C : Type 0) : Type 0 where
  pub modified : Option Instant
  pub pair : Option C

pub record Reloader (C : Type 0) : Type 0 where
  pub cert : Option C
  pub mod_time : Instant

abbrev pub fresh : {C : Type 0} → Reloader C
fresh = record { cert = none; mod_time = 0 }

-- The key pair is read: a new one is kept with its time, and an error serves the old one.
unfoldable pub load : {C : Type 0} → Instant → Option C → Reloader C → Option C × Reloader C
load m none r = (r.cert, r)
load m (some c) r = (some c, record { cert = some c; mod_time = m })

abbrev pub is_loaded : {C : Type 0} → Option C → Bool
is_loaded none = false
is_loaded (some c) = true

-- GetCertificate, after Stat. A result of none is an error.
unfoldable pub get_at :
    {C : Type 0} → Option Instant → Option C → Reloader C → Option C × Reloader C
get_at none pair r = (r.cert, r)
get_at (some m) pair r =
    if is_loaded r.cert && not (after m r.mod_time) then (r.cert, r) else load m pair r

-- GetCertificate
unfoldable pub get_certificate : {C : Type 0} → Files C → Reloader C → Option C × Reloader C
get_certificate f r = get_at f.modified f.pair r

-- Calls, the first first.
unfoldable pub serve_all : {C : Type 0} → List (Files C) → Reloader C → Reloader C
serve_all [] r = r
serve_all (f ∷ fs) r = serve_all fs (get_certificate f r).1

-- Config: the first call is made at once, and its error ends the program.
unfoldable pub config : {C : Type 0} → Files C → Option (Reloader C)
config f = let (c, r) = get_certificate f fresh in if is_loaded c then some r else none
