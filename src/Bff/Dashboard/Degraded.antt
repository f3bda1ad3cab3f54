-- ===== src/Bff/Dashboard/Degraded.antt =====
-- One statement that fails does not fail the dashboard.
use fernbank.Base.{◌≡◌, refl, true, false, List, [], ◌∷◌, Option, none, some, or_else}
use fernbank.Bff.Http.{Result, ok, throws}
use fernbank.Bff.World.{World}
use fernbank.Bff.Dashboard.{AccountResponse, CursorPage, DashboardAccount, with_entries, settled_of}

-- An account's part of the dashboard, given how the call for its statement ended.
abbrev pub Shows : Result (Option CursorPage) → AccountResponse → DashboardAccount → Type 0
Shows (ok none) account shown = ⊥
Shows (ok (some page)) account shown = shown ≡ with_entries account (or_else page.entries []) false
Shows (throws e) account shown = shown ≡ with_entries account [] true

-- The same, account by account.
abbrev pub ShowsAll :
    List (Result (Option CursorPage)) → List AccountResponse → List DashboardAccount → Type 0
ShowsAll [] [] [] = Unit
ShowsAll (r ∷ rs) (a ∷ accounts) (shown ∷ rest) = Shows r a shown × ShowsAll rs accounts rest
ShowsAll _ _ _ = ⊥

abbrev pub SameLength : List (Result (Option CursorPage)) → List AccountResponse → Type 0
SameLength [] [] = Unit
SameLength (r ∷ rs) (a ∷ accounts) = SameLength rs accounts
SameLength _ _ = ⊥

settled_of-ok : {A : Type 0} (r : Result A × World) → (settled_of r).0 ≡ ok r.0
settled_of-ok (r, w) = refl
