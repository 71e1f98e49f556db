-- ===== src/Sdk/Errors/RoundTrip/Targets.antt =====
-- The whitelist message: which targets the SDK reads back from it.
use x402guard.Base.{◌≡◌, true, false, none, some, [], ◌∷◌, ◌++◌, arith, ◌==◌, refl, All-append}
use x402guard.Js.Text.{Text, text, is_empty, is_space, drop_while, take_while, strip_prefix}
use x402guard.Js.Text.Laws.{NoneOf-of_any, Each, NoneOf, take_while-append, drop_while-append}
use x402guard.Js.Pattern.{Pattern, is_nonspace, search_text}
use x402guard.Js.Pattern.Skip.{search_text-found, search_text_lacks, needs}
use x402guard.Sdk.Errors.{contract_pattern}

-- A target that the proxy prints and the SDK can read back: not empty, no space, no `>`.
pub record IsTarget (t : Text) : Type 0 where
  pub nonempty : is_empty t ≡ false
  pub no_space : Each is_nonspace t
  pub no_gt : NoneOf (λ c. c == b'>') t

drop_space_lem : (t rest : Text) → IsTarget t → drop_while is_space (t ++ rest) ≡ t ++ rest
unfolding drop_while
drop_space_lem [] rest h = cc (h.nonempty)
drop_space_lem (c ∷ t) rest h = ground (arith, h.no_space.0)

module _ (t : Text) (h : IsTarget t) where
  drop_space-target : (rest : Text) → drop_while is_space (t ++ rest) ≡ t ++ rest
  drop_space-target rest = drop_space_lem t rest h

  take_nonspace-target : (rest : Text) → take_while is_nonspace (t ++ b' ' ∷ rest) ≡ t
  unfolding is_space
  take_nonspace-target rest = take_while-append is_nonspace t b' ' rest h.no_space refl

  drop_nonspace-target : (rest : Text) → drop_while is_nonspace (t ++ b' ' ∷ rest) ≡ b' ' ∷ rest
  unfolding is_space
  drop_nonspace-target rest = drop_while-append is_nonspace t b' ' rest h.no_space refl

  pub search_contract :
      search_text contract_pattern
        (text "AllowedContracts: target " ++ (t ++ text " not in whitelist"))
      ≡ some (t ∷ [])
  unfolding text search_text strip_prefix take_while drop_while is_space
  search_contract =
      search_text-found contract_pattern (text "target " ++ (t ++ text " not in whitelist"))
        (t ∷ []) (simp (drop_space-target, take_nonspace-target, drop_nonspace-target, h.nonempty))

  pub contract_lacks_gt :
      (p : Pattern)
      → needs (λ c. c == b'>') p ≡ true
      → search_text p (text "AllowedContracts: target " ++ (t ++ text " not in whitelist")) ≡ none
  unfolding text
  contract_lacks_gt p e =
      search_text_lacks (λ c. c == b'>') p _
        (All-append _ (text "AllowedContracts: target ") (t ++ text " not in whitelist")
          (NoneOf-of_any (λ c. c == b'>') (text "AllowedContracts: target ") refl)
          (All-append _ t (text " not in whitelist") h.no_gt
            (NoneOf-of_any (λ c. c == b'>') (text " not in whitelist") refl)))
        e
