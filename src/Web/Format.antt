-- ===== src/Web/Format.antt =====
-- frontend/src/lib/format/money.ts and frontend/src/lib/statement/spend.ts. JavaScript's numbers, dates and
-- number formats are arguments.
use fernbank.Base.{
  ℕ, zero, suc, ◌≡◌, refl, Bool, true, false, not, ◌||◌, List, [], ◌∷◌, String, Option, none, some,
  or_else, if◌then◌else◌,
}
use fernbank.Base.Dict.{Dict, lookup, insert, has}
use fernbank.Base.Text.{◌+++◌, trim, strip_prefix, truthy}
use fernbank.Bff.Dashboard.{MoneyDto, StatementEntryResponse}

abbrev amount_of : Option MoneyDto → Option String
amount_of none = none
amount_of (some money) = money.amount

abbrev currency_of : Option MoneyDto → Option String
currency_of none = none
currency_of (some money) = money.currency

abbrev shown : Option String → String → String → String
shown none amount currency = amount +++ " " +++ currency
shown (some formatted) amount currency = formatted

abbrev formatted_or_dash :
    (String → String → Option String) → Option String → Option String → String
formatted_or_dash intl none currency = "—"
formatted_or_dash intl (some amount) none = "—"
formatted_or_dash intl (some amount) (some currency) = shown (intl currency amount) amount currency

-- `intl` is `Intl.NumberFormat` with a currency, at the number of a text; none where it throws.
unfoldable pub format_money : (String → String → Option String) → Option MoneyDto → String
format_money intl money =
    formatted_or_dash intl (truthy (amount_of money)) (truthy (currency_of money))

abbrev starts_with_minus : Option String → Bool
starts_with_minus none = false
starts_with_minus (some rest) = true

unfoldable pub is_debit : Option MoneyDto → Bool
unfolding trim strip_prefix
is_debit money = elim (amount_of money) [
  | none ↦ false
  | some amount ↦ starts_with_minus (strip_prefix "-" (trim amount))
]

-- The numbers of JavaScript, as far as the sum needs them.
pub record Numbers : Type 1 where
  pub Number : Type 0
  pub nought : Number
  pub nan : Number
  pub of_text : String → Number
  pub is_finite : Number → Bool
  pub at_least_nought : Number → Bool
  pub plus : Number → Number → Number
  pub magnitude : Number → Number

unfoldable first : ℕ → String → String
first zero s = String.[]
first (suc n) String.[] = String.[]
first (suc n) (String.◌∷◌ c s) = String.◌∷◌ c (first n s)

module _ (n : Numbers) where
  -- `day i` is the text of the day i days back.
  unfoldable no_spending : (ℕ → String) → ℕ → Dict n.Number → Dict n.Number
  no_spending day zero totals = totals
  no_spending day (suc i) totals = no_spending day i (insert (day i) n.nought totals)

  abbrev value_of : Option String → n.Number
  value_of none = n.nan
  value_of (some amount) = n.of_text amount

  abbrev onto_day : n.Number → String → Dict n.Number → Dict n.Number
  onto_day value day totals =
      if not (has day totals)
      then totals
      else insert day (n.plus (or_else (lookup day totals) n.nought) (n.magnitude value)) totals

  abbrev spend_at : n.Number → Option String → Dict n.Number → Dict n.Number
  spend_at value none totals = totals
  spend_at value (some created_at) totals =
      if not (n.is_finite value) || n.at_least_nought value
      then totals
      else onto_day value (first 10 created_at) totals

  unfoldable spend : List StatementEntryResponse → Dict n.Number → Dict n.Number
  unfolding first
  spend [] totals = totals
  spend (entry ∷ entries) totals =
      spend entries
        (spend_at (value_of (truthy (amount_of entry.amount))) (truthy entry.created_at) totals)

  unfoldable pub daily_spend : (ℕ → String) → List StatementEntryResponse → ℕ → Dict n.Number
  unfolding no_spending spend
  daily_spend day entries days = spend entries (no_spending day days [])

debit_example : is_debit (some (record { amount = some " -1.00"; currency = none })) ≡ true
unfolding is_debit
debit_example = refl
