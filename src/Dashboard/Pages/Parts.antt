-- ===== src/Dashboard/Pages/Parts.antt =====
-- What the parts of the page of an agent read.
use x402guard.Base.{
  ℕ, ◌&&◌, ◌≡◌, refl, ap, ◌∙◌, ltb, Bool, true, false, Option, some, none, if◌then◌else◌,
}
use x402guard.Js.Text.{Text, text}
use x402guard.Js.Json.{Json, null}
use x402guard.Sdk.Errors.{Thrown, error, Result, ok, throw, property, bind_result}
use x402guard.Sdk.Io.{Response, Reply, resolved, rejected, is_ok}
use x402guard.Dashboard.Agent.Values.{is_truthy}
use x402guard.Dashboard.Proxy.{PageServer, answer_at, present_data}
use x402guard.Dashboard.Pages.{
  AgentPage, shown, not_found, failed, Arrived, late, early, both, arrive, all_arrived, listed,
  page_of_failure, page_of,
}

-- The reply is a response that is `ok`, with a JSON body.
abbrev pub Brings : Reply → Json → Type 0
Brings rep body = (r : Response) × (rep ≡ resolved r) × (is_ok r ≡ true) × (r.body ≡ some body)

brought :
    (good : Bool) (r : Response) (o : Option Json) (e : Thrown) (body : Json)
    → r.body ≡ o
    → (if good
        then (elim o as (λ _. Result Json) [
          | none ↦ throw (error (text "Unexpected token in JSON"))
          | some v ↦ ok v
        ])
        else throw e)
      ≡ ok body
    → (good ≡ true) × (r.body ≡ some body)
brought false r o e body g h = cc
brought true r none e body g h = cc
brought true r (some v) e body g h = (refl, g ∙ cc)

pub answer_at-Brings :
    (p : PageServer) (path : Text) (rep : Reply) (body : Json)
    → answer_at p path rep ≡ ok body
    → Brings rep body
unfolding answer_at
answer_at-Brings p path (rejected e) body h = cc
answer_at-Brings p path (resolved r) body h =
    let (good, parsed) = brought (is_ok r) r r.body _ body refl h in (r, refl, good, parsed)

pub bound {ℓ κ} :
    {A : Type ℓ} {B : Type κ} (m : Result A) (f : A → Result B) (b : B)
    → bind_result m f ≡ ok b
    → (a : A) × (m ≡ ok a) × (f a ≡ ok b)
bound (ok a) f b h = (a, refl, h)
bound (throw e) f b h = cc

never {ℓ κ} :
    {A : Type ℓ} {B : Type κ} (m : Result A) (g : A → Thrown) (b : B)
    → bind_result m (λ a. throw (g a)) ≡ ok b
    → ⊥
never (ok a) g b h = cc
never (throw e) g b h = cc

present_if :
    (p q : Bool) (v a : Json) (m : Result Json)
    → (m ≡ ok a → ⊥)
    → (if p && q then ok v else m) ≡ ok a
    → (p ≡ true) × (v ≡ a)
present_if true true v a m n h = (refl, cc)
present_if true false v a m n h = absurd (n h)
present_if false q v a m n h = absurd (n h)

pub present_data-truthy :
    (id : Text) (body a : Json) (s d : Option Json)
    → present_data id body s d ≡ ok a
    → (is_truthy s ≡ true) × (d ≡ some a)
present_data-truthy id body a s none h = absurd (never (property (text "error") body) _ a h)
present_data-truthy id body a s (some v) h =
    let (good, e) =
      present_if (is_truthy s) (is_truthy (some v)) v a _ (never (property (text "error") body) _ a)
        h in
    (good, ap some e)

failure_hides :
    (b : Bool) (m : Text) (a rs ks : Json) → (if b then not_found else failed m) ≡ shown a rs ks → ⊥
failure_hides true m a rs ks h = cc
failure_hides false m a rs ks h = cc

-- Whether a page was made of what `Promise.all` gave.
pub page_of-shown :
    (r : Result AgentPage) (a rs ks : Json) → page_of r ≡ shown a rs ks → r ≡ ok (shown a rs ks)
unfolding page_of_failure
page_of-shown (ok page) a rs ks h = ap ok h
page_of-shown (throw e) a rs ks h = absurd (failure_hides _ _ a rs ks h)

some_early {ℓ} :
    {A : Type ℓ} (b : Bool) (n m : ℕ) (d e : Thrown) (a : A)
    → (if b then early m e else early n d) ≡ late a
    → ⊥
some_early true n m d e a h = cc
some_early false n m d e a h = cc

pub both-late {ℓ κ} :
    {A : Type ℓ} {B : Type κ} (x : Arrived A) (y : Arrived B) (a : A) (b : B)
    → both x y ≡ late (a, b)
    → (x ≡ late a) × (y ≡ late b)
both-late (late a') (late b') a b h = (cc, cc)
both-late (late a') (early m e) a b h = cc
both-late (early n d) (late b') a b h = cc
both-late (early n d) (early m e) a b h = absurd (some_early (ltb m n) n m d e (a, b) h)

pub arrive-late {ℓ} : {A : Type ℓ} (n : ℕ) (r : Result A) (a : A) → arrive n r ≡ late a → r ≡ ok a
arrive-late n (ok b) a h = cc
arrive-late n (throw e) a h = cc

pub all_arrived-ok {ℓ} : {A : Type ℓ} (x : Arrived A) (a : A) → all_arrived x ≡ ok a → x ≡ late a
all_arrived-ok (late b) a h = cc
all_arrived-ok (early n e) a h = cc

pub listed-some : (o : Option Json) (v : Json) → listed o ≡ ok v → o ≡ some v
listed-some none v h = cc
listed-some (some null) v h = cc
listed-some (some v) w h = cc

-- A list that the page shows.
abbrev pub ListedAt : Reply → Json → Type 0
ListedAt rep items =
    (body : Json) × Brings rep body × (property (text "data") body ≡ ok (some items))
