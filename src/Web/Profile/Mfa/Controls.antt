-- ===== src/Web/Profile/Mfa/Controls.antt =====
-- What the controls of `MfaTab` of frontend/src/app/(app)/profile/page.tsx may do.
use fernbank.Base.{
  ◌≡◌, refl, ◌⊎◌, inl, inr, Bool, true, false, not, List, [], ◌∷◌, String, Option, none, some, All,
  map,
}
use fernbank.Base.Text.{truthy}
use fernbank.Web.Transfer.Pages.{is_pending}
use fernbank.Web.View.{Control, text, UserInput, offered}
use fernbank.Web.View.Offers.{Gives, offered-Gives, append-Gives}
use fernbank.Web.Profile.Mfa.{
  Enrollment, MfaTab, MfaAction, confirms, finishes, codes_page, qr_code, enrollment_page,
  start_page, mfa_page_of, mfa_tab,
}

-- Codes are put away only where they are ticked as saved; a code is sent only where none runs and no
-- recovery codes are shown.
abbrev pub Allowed : Option (List String) → Bool → List String → MfaAction → Type 0
Allowed codes saved confirming finishes = saved ≡ true
Allowed codes saved confirming confirms = (codes ≡ none) × (is_pending confirming ≡ false)
Allowed codes saved confirming _ = Unit

module _ (s : MfaTab) where
  abbrev Fine : Option (List String) → List (Control MfaAction) → Type 0
  Fine codes controls = All (Gives (Allowed codes s.saved_recovery_codes s.confirming)) controls

  texts-Fine : (shown : Option (List String)) (codes : List String) → Fine shown (map text codes)
  texts-Fine shown [] = tt
  texts-Fine shown (c ∷ codes) = (tt, texts-Fine shown codes)

  not_saved : (saved : Bool) → (not saved ≡ true) ⊎ (saved ≡ true)
  not_saved true = inr refl
  not_saved false = inl refl

  qr_code-Fine : (uri : Option String) → Fine none (qr_code uri)
  qr_code-Fine none = tt
  qr_code-Fine (some uri) = (tt, tt)

  idle :
      (calls : List String)
      → (is_pending calls ≡ true)
        ⊎ ((◌≡◌ {A = Option (List String)} none none) × (is_pending calls ≡ false))
  idle [] = inr (refl, refl)
  idle (c ∷ calls) = inl refl

  mfa_page_of-Fine :
      (codes : Option (List String)) (enrollment : Option Enrollment)
      → Fine codes (mfa_page_of codes enrollment s)
  unfolding codes_page enrollment_page start_page
  mfa_page_of-Fine (some codes) enrollment = (
    tt,
    (
      tt,
      append-Gives _ (map text codes) _ (texts-Fine (some codes) codes)
          (inr tt, (not_saved s.saved_recovery_codes, tt)),
    ),
  )
  mfa_page_of-Fine none (some enrollment) = (
    tt,
    (
      tt,
      append-Gives _ (qr_code (truthy enrollment.otp_auth_uri)) _
          (qr_code-Fine (truthy enrollment.otp_auth_uri))
          (tt, (λ typed. tt, (idle s.confirming, tt))),
    ),
  )
  mfa_page_of-Fine none none = (tt, (tt, (inr tt, tt)))

  pub offered-Allowed :
      (did : UserInput) (action : MfaAction)
      → offered (mfa_tab s) did ≡ some action
      → Allowed s.recovery_codes s.saved_recovery_codes s.confirming action
  unfolding mfa_tab
  offered-Allowed did action e =
      offered-Gives _ (mfa_page_of s.recovery_codes s.enrollment s) did action
        (mfa_page_of-Fine s.recovery_codes s.enrollment) e
