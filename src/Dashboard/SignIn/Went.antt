-- ===== src/Dashboard/SignIn/Went.antt =====
-- What a step of signing in had, where what follows it was reached.
use x402guard.Base.{
  Bool, true, false, Option, some, none, List, ◌∷◌, ◌≡◌, refl, ◌∙◌, sym, ap, if◌then◌else◌,
}
use x402guard.Js.Text.{Text}
use x402guard.Js.Json.{Json}
use x402guard.Sdk.Errors.{Thrown, Result, ok, throw, property}
use x402guard.Dashboard.SignIn.{
  Done, View, Flow, go, fail, Step, ◌>>=◌, flow_of, lift, ask, leave_with, catch, parsed_body,
}

module _ {ℓ κ} {A : Type ℓ} {B : Type κ} (f : A → Step B) (b : B) (u : View) where
  pub lift_went :
      (r : Result A) (v : View)
      → (lift r >>= f) v ≡ (go b, u)
      → (a : A) × (r ≡ ok a) × (f a v ≡ (go b, u))
  unfolding lift ◌>>=◌
  lift_went (ok a) v h = (a, refl, h)
  lift_went (throw e) v h = cc

  pub after_went :
      (r : Result A) (v : View)
      → ((λ _. (flow_of r, v)) >>= f) v ≡ (go b, u)
      → (a : A) × (r ≡ ok a) × (f a v ≡ (go b, u))
  unfolding ◌>>=◌
  after_went (ok a) v h = (a, refl, h)
  after_went (throw e) v h = cc

  pub ask_went :
      (d : Done) (g : List Done → Result A) (v : View)
      → (ask d g >>= f) v ≡ (go b, u)
      → (a : A) × (g v.done ≡ ok a) × (f a (record v { done = d ∷ v.done }) ≡ (go b, u))
  unfolding ask ◌>>=◌
  ask_went d g v h = after_went (g v.done) (record v { done = d ∷ v.done }) h

  -- A part that returns early instead of throwing.
  pub caught_went :
      (r : Result A) (c : Thrown → Text) (v : View)
      → (catch (λ _. (flow_of r, v)) (λ e. leave_with (c e)) >>= f) v ≡ (go b, u)
      → (a : A) × (r ≡ ok a) × (f a v ≡ (go b, u))
  unfolding catch leave_with ◌>>=◌
  caught_went (ok a) c v h = (a, refl, h)
  caught_went (throw e) c v h = cc

-- A part that throws.
abbrev pub Fails {ℓ} : {A : Type ℓ} → Step A → Type ℓ
Fails m = (v : View) → (e : Thrown) × (m v ≡ (fail e, v))

pub lift-Fails {ℓ} : {A : Type ℓ} (e : Thrown) → Fails (lift {A = A} (throw e))
unfolding lift
lift-Fails e v = (e, refl)

pub bind-Fails {ℓ κ} :
    {A : Type ℓ} {B : Type κ} (r : Result A) (g : A → Thrown)
    → Fails (lift r >>= λ a. lift {A = B} (throw (g a)))
unfolding lift ◌>>=◌
bind-Fails (ok a) g v = (g a, refl)
bind-Fails (throw e) g v = (e, refl)

-- A field of the body of a response, where the response is not refused.
module _ {κ} {B : Type κ} (f : Option Json → Step B) (b : B) (u v : View) where
  pub refused_went : (m : Step (Option Json)) → Fails m → (m >>= f) v ≡ (go b, u) → true ≡ false
  unfolding ◌>>=◌
  refused_went m h k =
      let (e, g) = h v in
      let bad : ◌≡◌ {A = Flow B × View} (fail e, v) (go b, u) =
        sym (ap (λ o. ((λ _. o) >>= f) v) g) ∙ k in
      cc

  pub field_went :
      (name : Text) (good : Bool) (r : Result Json) (m : Step (Option Json))
      → Fails m
      → ((if good then (lift r >>= λ body. lift (property name body)) else m) >>= f) v ≡ (go b, u)
      → (good ≡ true)
        × (body : Json) × (r ≡ ok body)
        × (o : Option Json) × (property name body ≡ ok o)
        × (f o v ≡ (go b, u))
  unfolding lift ◌>>=◌
  field_went name true (ok body) m h k =
      let (o, g, rest) = lift_went f b u (property name body) v k in (refl, body, refl, o, g, rest)
  field_went name true (throw e) m h k = cc
  field_went name false r m h k = let bad = refused_went m h k in cc

pub parsed_body-ok : (o : Option Json) (v : Json) → parsed_body o ≡ ok v → o ≡ some v
parsed_body-ok none v h = cc
parsed_body-ok (some x) v h = cc
