-- ===== src/Web/View.antt =====
-- What a page of frontend/src/app or a component of frontend/src/components shows, as the list of its
-- texts and controls in the order of the markup; the classes and the elements that only lay things out
-- are left out. The user can do what the controls offer, and nothing else.
pub mod Offers
use fernbank.Base.{
  ℕ, suc, ◌≡◌, refl, Bool, true, false, ◌||◌, List, [], ◌∷◌, String, Option, none, some, or_else,
  get_elem?, ◌==◌, if◌then◌else◌,
}
use fernbank.Web.Api.{ApiResult, returns, throws, rejects, ApiError}

-- `E` is what the page's handlers do. An input calls its handler with the new text; an option is its
-- value and its label; `progress` is a mark that is on or off.
pub data Control (E : Type 0) : Type 0 where
  text : String → Control E
  placeholder : Control E
  progress : Bool → Control E
  link : String → String → Control E
  button : String → Bool → E → Control E
  input : String → String → (String → E) → Control E
  select : String → List (String × String) → (String → E) → Control E

-- The user presses the control at a position, or gives it a new text.
pub data UserInput : Type 0 where
  presses : ℕ → UserInput
  enters : ℕ → String → UserInput

unfoldable pub is_option : String → List (String × String) → Bool
is_option value [] = false
is_option value ((v, label) ∷ options) = let rest = is_option value options in v == value || rest

module _ {E : Type 0} where
  -- A disabled button does nothing when it is pressed.
  abbrev pub press : Control E → Option E
  press (button label disabled action) = if disabled then none else some action
  press _ = none

  -- A select gives only a value of its options.
  unfoldable pub enter : Control E → String → Option E
  unfolding is_option
  enter (input label value action) s = some (action s)
  enter (select value options action) s = if is_option s options then some (action s) else none
  enter _ s = none

  abbrev pub at_control : (Control E → Option E) → Option (Control E) → Option E
  at_control hand none = none
  at_control hand (some control) = hand control

  unfoldable pub offered : List (Control E) → UserInput → Option E
  unfolding enter
  offered controls (presses i) = at_control press (get_elem? controls i)
  offered controls (enters i s) = at_control (λ c. enter c s) (get_elem? controls i)

-- `error instanceof ApiError ? (error.detail ?? error.title ?? error.message) : fallback`, of a call
-- that failed.
unfoldable pub error_message : String → Option ApiError → String
error_message fallback none = fallback
error_message fallback (some error) = or_else error.detail (or_else error.title error.message)
