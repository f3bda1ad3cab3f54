-- ===== src/Web/Profile/Sessions.antt =====
-- `SessionsTab` and `LoginHistoryTab` of frontend/src/app/(app)/profile/page.tsx.
use fernbank.Base.{Bool, List, [], ◌∷◌, ◌++◌, String, Option, none, some, or_else, if◌then◌else◌}
use fernbank.Base.Text.{◌+++◌, truthy}
use fernbank.Web.Api.{ApiResult, returns, throws, rejects}
use fernbank.Web.Queries.{Page}
use fernbank.Web.View.{Control, text, placeholder, button, error_message}

pub record SessionResponse : Type 0 where
  pub id : Option String
  pub issued_at : Option String
  pub expires_at : Option String

-- The message of `handleRevoke` behind its await.
unfoldable pub revoke_message : {A : Type 0} → ApiResult A → String
unfolding error_message
revoke_message (returns result) = "Session revoked"
revoke_message (throws error) = error_message "Failed to revoke session" (some error)
revoke_message rejects = error_message "Failed to revoke session" none

-- `local_time` is `toLocaleString` of a date.
abbrev time_of : (String → String) → Option String → String
time_of local_time none = ""
time_of local_time (some time) = local_time time

-- The action of a button is the id of the session to revoke.
unfoldable pub session_rows :
    (String → String) → Bool → List SessionResponse → List (Control (Option String))
session_rows local_time is_revoking [] = []
session_rows local_time is_revoking (session ∷ sessions) =
    text ("Issued " +++ time_of local_time (truthy session.issued_at))
    ∷ text ("Expires " +++ time_of local_time (truthy session.expires_at))
    ∷ button "Revoke" is_revoking session.id
    ∷ session_rows local_time is_revoking sessions

unfoldable pub sessions_tab :
    (String → String) → Bool → Option (List SessionResponse) → Bool → List (Control (Option String))
unfolding session_rows
sessions_tab local_time is_pending sessions is_revoking =
    text "Active sessions"
    ∷ text
        "Every device currently signed in. There's no way to tell which one is this device — revoke any you don't recognize."
    ∷ (if is_pending then placeholder ∷ placeholder ∷ [] else elim (or_else sessions []) [
      | [] ↦ text "No active sessions." ∷ []
      | s ∷ ss ↦ session_rows local_time is_revoking (s ∷ ss)
    ])

pub record AuditEventResponse : Type 0 where
  pub id : Option String
  pub event_type : Option String
  pub created_at : Option String

-- `data?.pages.flatMap((page) => page.data ?? []) ?? []`.
unfoldable pub events_of : List (Page AuditEventResponse) → List AuditEventResponse
events_of [] = []
events_of (page ∷ pages) = or_else page.data_in [] ++ events_of pages

pub data HistoryAction : Type 0 where
  fetches_next_page : HistoryAction

unfoldable pub event_rows :
    (String → String) → List AuditEventResponse → List (Control HistoryAction)
event_rows local_time [] = []
event_rows local_time (event ∷ events) =
    text (or_else event.event_type "")
    ∷ text (time_of local_time (truthy event.created_at))
    ∷ event_rows local_time events

abbrev more_button : Bool → Bool → List (Control HistoryAction)
more_button has_next_page is_fetching =
    if has_next_page
    then button (if is_fetching then "Loading…" else "Load more") is_fetching fetches_next_page ∷ []
    else []

unfoldable pub login_history_tab :
    (String → String)
    → Bool
    → Option (List (Page AuditEventResponse))
    → Bool
    → Bool
    → List (Control HistoryAction)
unfolding events_of event_rows
login_history_tab local_time is_pending pages has_next_page is_fetching =
    text "Login history"
    ∷ text "Recent sign-in and security events for your account."
    ∷ (if is_pending
        then placeholder ∷ placeholder ∷ placeholder ∷ []
        else elim (events_of (or_else pages [])) [
          | [] ↦ text "No login history yet." ∷ []
          | e ∷ es ↦ event_rows local_time (e ∷ es) ++ more_button has_next_page is_fetching
        ])
