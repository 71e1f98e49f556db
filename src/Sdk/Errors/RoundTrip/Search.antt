-- ===== src/Sdk/Errors/RoundTrip/Search.antt =====
-- Which of the patterns of `fromApiResponse` matches which message, and with which groups.
use x402guard.Base.{
  ℕ, ◌≡◌, refl, ◌∙◌, false, none, some, [], ◌∷◌, ◌++◌, arith, ◌==◌, ◌<◌, any, All-append,
}
use x402guard.Js.Text.{Text, text, is_space, is_digit, drop_while, take_while, strip_prefix}
use x402guard.Js.Text.Laws.{NoneOf-of_any, NoneOf-of_Each, Each, NoneOf}
use x402guard.Js.Number.Numeral.{
  IsNumeral, drop_space-numeral, drop_space-numeral_end, take_digits-numeral, drop_digits-numeral,
  take_digits-numeral_end,
}
use x402guard.Js.Pattern.{Pattern, word, spaces, blanks, digits, match_here, search_text}
use x402guard.Js.Pattern.Skip.{search_text-found, search_text_lacks, search_text-digit_run}
use x402guard.Sdk.Errors.{spend_tx_pattern, spend_day_pattern, leverage_pattern, slippage_pattern}

-- Digits are no letters.
digits_lack : (k : ℕ) → 57 < k → (s : Text) → Each is_digit s → NoneOf (λ c. c == k) s
unfolding is_digit
digits_lack k h s ds = NoneOf-of_Each is_digit (λ c. c == k) (λ c e. ground arith) s ds

-- What follows the keyword in the two spend patterns.
abbrev spend_tail : Pattern
spend_tail =
    spaces ∷ digits ∷ blanks ∷ word (text ">") ∷ blanks ∷ word (text "limit") ∷ spaces ∷ digits ∷ []

abbrev leverage_rest : Pattern
leverage_rest = blanks ∷ word (text ">") ∷ blanks ∷ word (text "max") ∷ spaces ∷ digits ∷ []

text_lacks : (k : ℕ) (s : Text) → any (λ c. c == k) s ≡ false → NoneOf (λ c. c == k) s
text_lacks k s e = NoneOf-of_any (λ c. c == k) s e

module _ (a l : Text) (ha : IsNumeral a) (hl : IsNumeral l) where
  -- A message around two numbers lacks a letter that its words lack.
  message_lacks :
      (k : ℕ)
      → 57 < k
      → (before middle : Text) → any (λ c. c == k) before ≡ false
      → any (λ c. c == k) middle ≡ false
      → NoneOf (λ c. c == k) (before ++ (a ++ (middle ++ l)))
  message_lacks k h before middle e f =
      All-append _ before (a ++ (middle ++ l)) (text_lacks k before e) (
        All-append _ a (middle ++ l) (digits_lack k h a ha.all_digits)
          (All-append _ middle l (text_lacks k middle f) (digits_lack k h l hl.all_digits)))

  match_spend_tail :
      match_here spend_tail (text " " ++ (a ++ (text " > limit " ++ l))) ≡ some (a ∷ l ∷ [])
  unfolding match_here text is_space strip_prefix take_while drop_while
  match_spend_tail = simp (
    drop_space-numeral a ha,
    take_digits-numeral a ha,
    drop_digits-numeral a ha,
    ha.nonempty,
    drop_space-numeral_end l hl,
    take_digits-numeral_end l hl,
    hl.nonempty,
  )

  pub search_spend_tx :
      search_text spend_tx_pattern
        (text "MaxSpendPerTx exceeded: payment " ++ (a ++ (text " > limit " ++ l)))
      ≡ some (a ∷ l ∷ [])
  unfolding text search_text strip_prefix
  search_spend_tx =
      search_text-found spend_tx_pattern (text "payment " ++ (a ++ (text " > limit " ++ l)))
        (a ∷ l ∷ []) match_spend_tail

  pub search_spend_day :
      search_text spend_day_pattern
        (text "MaxSpendPerDay exceeded: daily total " ++ (a ++ (text " > limit " ++ l)))
      ≡ some (a ∷ l ∷ [])
  unfolding text search_text strip_prefix
  search_spend_day =
      search_text-found spend_day_pattern (text "daily total " ++ (a ++ (text " > limit " ++ l)))
        (a ∷ l ∷ []) match_spend_tail

  -- The rest of the message has no `p`, with which `payment` begins.
  pub search_spend_tx_day :
      search_text spend_tx_pattern
        (text "MaxSpendPerDay exceeded: daily total " ++ (a ++ (text " > limit " ++ l)))
      ≡ none
  unfolding text search_text strip_prefix
  search_spend_tx_day =
      search_text_lacks (λ c. c == b'p') spend_tx_pattern (a ++ (text " > limit " ++ l))
        (message_lacks b'p' (omega arith) [] (text " > limit ") refl refl) refl

  pub search_leverage :
      search_text leverage_pattern (text "MaxLeverage exceeded: " ++ (a ++ (text " > max " ++ l)))
      ≡ some (a ∷ l ∷ [])
  unfolding text search_text strip_prefix take_while drop_while is_digit is_space
  search_leverage = search_text-found leverage_pattern (a ++ (text " > max " ++ l)) (a ∷ l ∷ []) (
      simp (
        take_digits-numeral a ha,
        drop_digits-numeral a ha,
        ha.nonempty,
        drop_space-numeral_end l hl,
        take_digits-numeral_end l hl,
        hl.nonempty,
      ))

  pub search_spend_leverage :
      (search_text spend_tx_pattern (text "MaxLeverage exceeded: " ++ (a ++ (text " > max " ++ l)))
        ≡ none)
      × (search_text spend_day_pattern
            (text "MaxLeverage exceeded: " ++ (a ++ (text " > max " ++ l)))
          ≡ none)
  unfolding text
  search_spend_leverage = (
    search_text_lacks (λ c. c == b'p') spend_tx_pattern _
        (message_lacks b'p' (omega arith) (text "MaxLeverage exceeded: ") (text " > max ") refl
          refl)
        refl,
    search_text_lacks (λ c. c == b'y') spend_day_pattern _
        (message_lacks b'y' (omega arith) (text "MaxLeverage exceeded: ") (text " > max ") refl
          refl)
        refl,
  )

  abbrev slippage_text : Text
  slippage_text = text "MaxSlippage exceeded: " ++ (a ++ (text " bps > max " ++ (l ++ text " bps")))

  slippage_lacks_y : NoneOf (λ c. c == b'y') slippage_text
  unfolding text
  slippage_lacks_y =
      All-append _ (text "MaxSlippage exceeded: ") (a ++ (text " bps > max " ++ (l ++ text " bps")))
        (text_lacks b'y' (text "MaxSlippage exceeded: ") refl)
        (All-append _ a (text " bps > max " ++ (l ++ text " bps"))
          (digits_lack b'y' (omega arith) a ha.all_digits)
          (All-append _ (text " bps > max ") (l ++ text " bps")
            (text_lacks b'y' (text " bps > max ") refl)
            (All-append _ l (text " bps") (digits_lack b'y' (omega arith) l hl.all_digits)
              (text_lacks b'y' (text " bps") refl))))

  pub search_slippage :
      search_text slippage_pattern
        (text "MaxSlippage exceeded: " ++ (a ++ (text " bps > max " ++ (l ++ text " bps"))))
      ≡ some (a ∷ l ∷ [])
  unfolding text search_text strip_prefix take_while drop_while is_digit is_space
  search_slippage =
      search_text-found slippage_pattern (a ++ (text " bps > max " ++ (l ++ text " bps")))
        (a ∷ l ∷ [])
        (simp (
          take_digits-numeral a ha,
          drop_digits-numeral a ha,
          ha.nonempty,
          drop_space-numeral l hl,
          take_digits-numeral l hl,
          drop_digits-numeral l hl,
          hl.nonempty,
        ))

  -- Behind the digits comes `bps`, where the leverage pattern wants `>`.
  search_leverage_slippage :
      search_text leverage_pattern
        (text "MaxSlippage exceeded: " ++ (a ++ (text " bps > max " ++ (l ++ text " bps"))))
      ≡ none
  unfolding text search_text strip_prefix take_while drop_while is_digit is_space
  search_leverage_slippage =
      search_text-digit_run leverage_rest b' ' (text "bps > max " ++ (l ++ text " bps")) refl refl a
        ha.all_digits
      ∙ search_text-digit_run leverage_rest b' ' (text "bps") refl refl l hl.all_digits

  pub search_other_slippage :
      (search_text spend_tx_pattern
          (text "MaxSlippage exceeded: " ++ (a ++ (text " bps > max " ++ (l ++ text " bps"))))
        ≡ none)
      × (search_text spend_day_pattern
            (text "MaxSlippage exceeded: " ++ (a ++ (text " bps > max " ++ (l ++ text " bps"))))
          ≡ none)
      × (search_text leverage_pattern
            (text "MaxSlippage exceeded: " ++ (a ++ (text " bps > max " ++ (l ++ text " bps"))))
          ≡ none)
  unfolding text
  search_other_slippage = (
    search_text_lacks (λ c. c == b'y') spend_tx_pattern slippage_text slippage_lacks_y refl,
    search_text_lacks (λ c. c == b'y') spend_day_pattern slippage_text slippage_lacks_y refl,
    search_leverage_slippage,
  )
