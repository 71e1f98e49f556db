-- ===== src/Dashboard/SignIn/Laws.antt =====
-- How the steps of signing in end.
use x402guard.Base.{Bool, true, false, Option, some, none, List, ◌≡◌, refl, ◌∙◌, sym, if◌then◌else◌}
use x402guard.Js.Text.{Text, text}
use x402guard.Js.Json.{Json}
use x402guard.Sdk.Errors.{Thrown, error, Result, ok, throw}
use x402guard.Dashboard.SignIn.{
  Response, Wallet, Done, redirected, View, Flow, go, leave, fail, Step, pure, ◌>>=◌, ◌>>◌, flow_of,
  lift, set_status, ask, leave_with, catch, choose_chain, nonce_in, sign_message, session_in, enter,
  attempt, settle_view,
}

-- A part that goes on leaves the error as it was, and one that returns early has set an error.
abbrev pub Tells {ℓ} : {A : Type ℓ} → View → Flow A × View → Type 0
Tells v (go a, u) = u.error_shown ≡ v.error_shown
Tells v (leave, u) = (m : Text) × (u.error_shown ≡ some m)
Tells v (fail e, u) = Unit

pub record IsTelling {ℓ} {A : Type ℓ} (m : Step A) : Type 0 where
  pub tells : (v : View) → Tells v (m v)

pure-IsTelling {ℓ} : {A : Type ℓ} (a : A) → IsTelling (pure a)
unfolding pure
pure-IsTelling a = record { tells = λ v. refl }

flow-Tells {ℓ} :
    {A : Type ℓ} (r : Result A) (v u : View)
    → u.error_shown ≡ v.error_shown
    → Tells v (flow_of r, u)
flow-Tells (ok a) v u e = e
flow-Tells (throw x) v u e = tt

lift-IsTelling {ℓ} : {A : Type ℓ} (r : Result A) → IsTelling (lift r)
unfolding lift
lift-IsTelling r = record { tells = λ v. flow-Tells r v v refl }

ask-IsTelling {ℓ} : {A : Type ℓ} (d : Done) (f : List Done → Result A) → IsTelling (ask d f)
unfolding ask
ask-IsTelling d f = record { tells = λ v. flow-Tells (f v.done) v _ refl }

set_status-IsTelling : (o : Option Text) → IsTelling (set_status o)
unfolding set_status
set_status-IsTelling o = record { tells = λ v. refl }

leave_with-IsTelling {ℓ} : {A : Type ℓ} (m : Text) → IsTelling (leave_with {A = A} m)
unfolding leave_with
leave_with-IsTelling m = record { tells = λ v. (m, refl) }

Tells-from {ℓ} :
    {A : Type ℓ} (v v' : View) (out : Flow A × View)
    → v'.error_shown ≡ v.error_shown
    → Tells v' out
    → Tells v out
Tells-from v v' (go a, u) e h = h ∙ e
Tells-from v v' (leave, u) e h = h
Tells-from v v' (fail x, u) e h = tt

after-Tells {ℓ κ} :
    {A : Type ℓ} {B : Type κ} (f : A → Step B) (v : View) (out : Flow A × View)
    → Tells v out
    → ((a : A) → IsTelling (f a))
    → Tells v (((λ _. out) >>= f) v)
unfolding ◌>>=◌
after-Tells f v (go a, u) h k = Tells-from v u (f a u) h ((k a).tells u)
after-Tells f v (leave, u) h k = h
after-Tells f v (fail e, u) h k = tt

bind-IsTelling {ℓ κ} :
    {A : Type ℓ} {B : Type κ} {m : Step A} {f : A → Step B}
    → IsTelling m
    → ((a : A) → IsTelling (f a))
    → IsTelling (m >>= f)
unfolding ◌>>=◌
bind-IsTelling {f = f} h k = record { tells = λ v. after-Tells f v _ (h.tells v) k }

then-IsTelling {ℓ κ} :
    {A : Type ℓ} {B : Type κ} {m : Step A} {k : Step B}
    → IsTelling m
    → IsTelling k
    → IsTelling (m >> k)
unfolding ◌>>◌
then-IsTelling h k = bind-IsTelling h λ _. k

caught-Tells {ℓ} :
    {A : Type ℓ} (g : Thrown → Text) (v : View) (out : Flow A × View)
    → Tells v out
    → Tells v (catch (λ _. out) (λ e. leave_with (g e)) v)
unfolding catch leave_with
caught-Tells g v (go a, u) h = h
caught-Tells g v (leave, u) h = h
caught-Tells g v (fail e, u) h = (g e, refl)

catch-IsTelling {ℓ} :
    {A : Type ℓ} {m : Step A} (g : Thrown → Text)
    → IsTelling m
    → IsTelling (catch m (λ e. leave_with (g e)))
unfolding catch
catch-IsTelling g h = record { tells = λ v. caught-Tells g v _ (h.tells v) }

if-IsTelling {ℓ} :
    {A : Type ℓ} {m k : Step A} (b : Bool)
    → IsTelling m
    → IsTelling k
    → IsTelling (if b then m else k)
if-IsTelling true h k = h
if-IsTelling false h k = k

module _ (w : Wallet) where
  choose_chain-IsTelling : IsTelling (choose_chain w)
  unfolding choose_chain
  choose_chain-IsTelling = if-IsTelling _ (pure-IsTelling _) (
      then-IsTelling (set_status-IsTelling _)
        (catch-IsTelling _ (then-IsTelling (ask-IsTelling _ _) (pure-IsTelling _))))

  nonce_in-IsTelling : (r : Response) → IsTelling (nonce_in w r)
  nonce_in-IsTelling r =
      if-IsTelling _ (bind-IsTelling (lift-IsTelling _) λ body. lift-IsTelling _) (lift-IsTelling _)

  sign_message-IsTelling : (m : Text) → IsTelling (sign_message w m)
  unfolding sign_message
  sign_message-IsTelling m = catch-IsTelling _ (ask-IsTelling _ _)

  session_in-IsTelling : (r : Response) → IsTelling (session_in w r)
  session_in-IsTelling r =
      if-IsTelling _ (bind-IsTelling (lift-IsTelling _) λ body. lift-IsTelling _)
        (bind-IsTelling (lift-IsTelling _) λ failure. lift-IsTelling _)

  enter-IsTelling : (session : Option Json) → IsTelling (enter w session)
  unfolding enter
  enter-IsTelling session =
      if-IsTelling _
        (then-IsTelling (ask-IsTelling _ _)
          (ask-IsTelling (redirected (text "/dashboard")) (λ _. ok tt)))
        (lift-IsTelling (throw (error (text "Server returned empty session. Please try again."))))

  pub attempt-IsTelling : (address : Text) → IsTelling (attempt w address)
  unfolding attempt
  attempt-IsTelling address = bind-IsTelling choose_chain-IsTelling λ chain.
      then-IsTelling (set_status-IsTelling _) (
        bind-IsTelling (ask-IsTelling _ _) λ answer.
          bind-IsTelling (nonce_in-IsTelling answer) λ nonce.
            bind-IsTelling (lift-IsTelling _) λ message. then-IsTelling (set_status-IsTelling _) (
              bind-IsTelling (sign_message-IsTelling message) λ signature.
                then-IsTelling (set_status-IsTelling _) (
                  bind-IsTelling (ask-IsTelling _ _) λ verdict.
                    bind-IsTelling (session_in-IsTelling verdict)
                      λ session. enter-IsTelling session)))

  -- A finished attempt that shows no error went through.
  pub settle_view-silent :
      (v : View) (out : Flow (Unit {0}) × View)
      → Tells v out
      → (settle_view w out).error_shown ≡ none
      → out.0 ≡ go tt
  unfolding settle_view
  settle_view-silent v (go tt, u) h e = refl
  settle_view-silent v (leave, u) (m, h) e = let bad : some m ≡ none = sym h ∙ e in cc
  settle_view-silent v (fail x, u) h e = cc
