-- ===== src/Auth/Lifetime.antt =====
-- How long a session lasts. The lifetime is an int64 of nanoseconds.
use web_mail.Base.{ℕ, ◌*◌, ◌≡◌, ◌≤◌, ◌<◌, some, ℤ, pos, ◌+ℤ◌, ◌<ℤ◌, arith, +ℤ_parts}
use web_mail.Config.{Config, hour}
use web_mail.Config
use web_mail.Auth.{session_ttl}

-- Up to 2562047 hours the lifetime is exact.
pub session_ttl-exact :
    (cfg : Config) (h : ℕ)
    → cfg.session_ttl_hours ≡ pos h
    → 0 < h
    → h ≤ 2562047
    → session_ttl (some cfg) ≡ pos (h * hour)
unfolding session_ttl Config.session_ttl
session_ttl-exact cfg h e low high = rw e (ground arith)

session_ttl-neg :
    (cfg : Config) (h : ℕ)
    → cfg.session_ttl_hours ≡ pos h
    → 2562048 ≤ h
    → h ≤ 5124095
    → session_ttl (some cfg) <ℤ pos 0
unfolding session_ttl Config.session_ttl
session_ttl-neg cfg h e low high = rw e (ground arith)

-- From 2562048 to 5124095 hours the product wraps around to a negative lifetime, so a session has
-- expired when it is created.
pub session_ttl-wraps :
    (cfg : Config) (h : ℕ) (now : ℤ)
    → cfg.session_ttl_hours ≡ pos h
    → 2562048 ≤ h
    → h ≤ 5124095
    → now +ℤ session_ttl (some cfg) <ℤ now
session_ttl-wraps cfg h now e low high =
    omega (arith, session_ttl-neg cfg h e low high, +ℤ_parts now (session_ttl (some cfg)))
