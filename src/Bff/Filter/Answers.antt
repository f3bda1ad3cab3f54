-- ===== src/Bff/Filter/Answers.antt =====
-- What the pipeline of app.module.ts guarantees for every handler.
use fernbank.Base.{◌≡◌, refl, inl, inr, false, String, some}
use fernbank.Base.Dict.{lookup}
use fernbank.Base.Text.{is_empty}
use fernbank.Bff.Http.{Request}
use fernbank.Bff.World.{Env, World, M}
use fernbank.Bff.Crypto.{decrypt}
use fernbank.Bff.Session.{session_context, session_cookie_name}
use fernbank.Bff.Csrf.{csrf_mismatch}
use fernbank.Bff.Csrf.Guard.{can_activate_iff, Passes}
use fernbank.Bff.Filter.{problem_answer, serve, problem_document}

-- A request that the CSRF guard does not let through never reaches its handler, whatever that is: the
-- browser gets a problem document with status 403, and nothing is sent, set or stored.
pub serve-refuses :
    {A : Type 0} (env : Env) (handler : Request → M A) (req : Request) (w : World)
    → ¬ Passes (session_context env req)
    → serve env handler req w
      ≡ (problem_document 403 (problem_answer csrf_mismatch (session_context env req)).1, w)
unfolding serve problem_answer
serve-refuses env handler req w fails = elim (can_activate_iff (session_context env req)) [
  | inl (passed, passes) ↦ absurd (fails passes)
  | inr (refused, _) ↦ rw refused refl
]

-- A session cookie with a value makes the request's session what decrypting it gives.
pub session_context_lem :
    (env : Env) (req : Request) (cookie : String)
    → lookup session_cookie_name req.cookies ≡ some cookie
    → is_empty cookie ≡ false
    → (session_context env req).fernbank_session ≡ decrypt env.crypto env.key cookie
unfolding session_context
session_context_lem env req cookie e real = rw e (rw real refl)
