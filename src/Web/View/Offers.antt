-- ===== src/Web/View/Offers.antt =====
-- What can come of the controls of a page: a predicate on actions that each control gives.
use fernbank.Base.{
  ℕ, zero, suc, ◌≡◌, subst, ◌⊎◌, inl, inr, true, false, List, [], ◌∷◌, ◌++◌, String, Option, some,
  get_elem?, All, Bool-cases,
}
use fernbank.Web.View.{
  Control, text, placeholder, progress, link, button, input, select, UserInput, presses, enters,
  is_option, press, enter, at_control, offered,
}

module _ {E : Type 0} (P : E → Type 0) where
  -- Whatever the control does passes, unless it is a button that is disabled.
  abbrev pub Gives : Control E → Type 0
  Gives (button label disabled action) = (disabled ≡ true) ⊎ P action
  Gives (input label value action) = (s : String) → P (action s)
  Gives (select value options action) = (s : String) → P (action s)
  Gives _ = Unit

  some_injective : {a b : E} → some a ≡ some b → a ≡ b
  some_injective e = cc

  press-Gives : (c : Control E) (a : E) → Gives c → press c ≡ some a → P a
  press-Gives (button label true action) a h e = cc
  press-Gives (button label false action) a (inl disabled) e = cc
  press-Gives (button label false action) a (inr p) e = subst P (some_injective e) p
  press-Gives (text s) a h e = cc
  press-Gives placeholder a h e = cc
  press-Gives (progress b) a h e = cc
  press-Gives (link s t) a h e = cc
  press-Gives (input label value action) a h e = cc
  press-Gives (select value options action) a h e = cc

  enter-Gives : (c : Control E) (s : String) (a : E) → Gives c → enter c s ≡ some a → P a
  unfolding enter
  enter-Gives (input label value action) s a h e = subst P (some_injective e) (h s)
  enter-Gives (select value options action) s a h e = elim (Bool-cases (is_option s options)) [
    | inl known ↦ subst P (some_injective (rw known at e)) (h s)
    | inr unknown ↦ cc (rw unknown at e)
  ]
  enter-Gives (button label disabled action) s a h e = cc
  enter-Gives (text t) s a h e = cc
  enter-Gives placeholder s a h e = cc
  enter-Gives (progress b) s a h e = cc
  enter-Gives (link t u) s a h e = cc

  at_control-Gives :
      (do_it : Control E → Option E) (a : E)
      → ((c : Control E) → Gives c → do_it c ≡ some a → P a)
      → (controls : List (Control E)) (i : ℕ) → All Gives controls
      → at_control do_it (get_elem? controls i) ≡ some a
      → P a
  at_control-Gives do_it a each [] i h e = cc
  at_control-Gives do_it a each (c ∷ controls) zero h e = each c h.0 e
  at_control-Gives do_it a each (c ∷ controls) (suc i) h e =
      at_control-Gives do_it a each controls i h.1 e

  pub offered-Gives :
      (controls : List (Control E)) (did : UserInput) (a : E)
      → All Gives controls
      → offered controls did ≡ some a
      → P a
  unfolding offered
  offered-Gives controls (presses i) a h e =
      at_control-Gives press a (λ c g. press-Gives c a g) controls i h e
  offered-Gives controls (enters i s) a h e =
      at_control-Gives (λ c. enter c s) a (λ c g. enter-Gives c s a g) controls i h e

  pub append-Gives : (cs ds : List (Control E)) → All Gives cs → All Gives ds → All Gives (cs ++ ds)
  append-Gives [] ds h g = g
  append-Gives (c ∷ cs) ds h g = (h.0, append-Gives cs ds h.1 g)
