-- ===== src/Dashboard/Middleware.antt =====
-- dashboard/src/middleware.ts: who is sent where.
use x402guard.Base.{
  ◌≡◌, refl, subst, Bool, true, false, not, ◌&&◌, Option, some, none, if◌then◌else◌,
}
use x402guard.Js.Text.{Text, text, text_eq, strip_prefix, starts_with, is_some}
use x402guard.Dashboard.Session.{User}

-- The request goes on, or is redirected.
pub data Route : Type 0 where
  proceed : Route
  redirect : Text → Route

-- `middleware`, given whether the checks are off and the user that supabase reports.
unfoldable pub middleware : Bool → Option User → Text → Route
middleware off user pathname =
    if off
    then proceed
    else (if starts_with pathname (text "/dashboard") && not (is_some user)
        then redirect (text "/login")
        else (if text_eq pathname (text "/login") && is_some user
            then redirect (text "/dashboard")
            else proceed))

-- The target of a redirect: /login for a user who is not logged in, /dashboard for one who is.
abbrev home : Option User → Text
home none = text "/login"
home (some _) = text "/dashboard"

redirected :
    (b c : Bool) (user : Option User) (target : Text)
    → (if b && not (is_some user)
        then redirect (text "/login")
        else (if c && is_some user then redirect (text "/dashboard") else proceed))
      ≡ redirect target
    → home user ≡ target
redirected true c none target h = cc
redirected false true none target h = cc
redirected false false none target h = cc
redirected true true (some u) target h = cc
redirected false true (some u) target h = cc
redirected true false (some u) target h = cc
redirected false false (some u) target h = cc

home_stays : (user : Option User) → middleware false user (home user) ≡ proceed
unfolding middleware text starts_with strip_prefix text_eq
home_stays none = refl
home_stays (some u) = refl

-- Where a redirect leads, the same user is not redirected again.
pub middleware_settles :
    (user : Option User) (pathname target : Text)
    → middleware false user pathname ≡ redirect target
    → middleware false user target ≡ proceed
unfolding middleware
middleware_settles user pathname target h =
    subst (λ p. middleware false user p ≡ proceed)
      (redirected (starts_with pathname (text "/dashboard")) (text_eq pathname (text "/login")) user
        target h)
      (home_stays user)
