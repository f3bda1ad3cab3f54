-- ===== src/Bff/Csrf/Guard.antt =====
-- When the guard of csrf.guard.ts lets a request through.
use fernbank.Base.{
  true, false, String, Option, none, some, ◌==◌, ◌≡◌, refl, sym, ◌⊎◌, arith, eq_iff, inl, inr,
  Bool-cases, Option-cases, ap,
}
use fernbank.Base.Dict.{lookup}
use fernbank.Base.Text.{truthy, is_empty}
use fernbank.Bff.Http.{Request, ok, throws}
use fernbank.Bff.Session.{csrf_cookie_name}
use fernbank.Bff.Common.{first_value}
use fernbank.Bff.Csrf.{
  csrf_header_name, is_safe_method, csrf_mismatch, compare_tokens, can_activate,
}

-- Both are one text, which is not empty.
abbrev pub IsDoubled : Option String → Option String → Type 0
IsDoubled cookie header =
    (token : String) × (is_empty token ≡ false) × (cookie ≡ some token) × (header ≡ some token)

compare_tokens_lem :
    (cookie header : Option String)
    → ((compare_tokens (truthy cookie) (truthy header) ≡ ok tt) × IsDoubled cookie header)
      ⊎ ((compare_tokens (truthy cookie) (truthy header) ≡ throws csrf_mismatch)
          × ¬ IsDoubled cookie header)
unfolding compare_tokens
compare_tokens_lem none header = inr (refl, λ d. ground arith)
compare_tokens_lem (some c) none = inr (ground arith, λ d. ground arith)
compare_tokens_lem (some c) (some h) = elim (Bool-cases (is_empty c)) [
  | inl e ↦ inr (ground arith, λ d. ground arith)
  | inr e ↦ elim (Bool-cases (is_empty h)) [
    | inl f ↦ inr (ground arith, λ d. ground arith)
    | inr f ↦ elim (Bool-cases (c == h)) [
      | inl same ↦ inl (ground arith, (c, e, refl, ap some (sym ((eq_iff c h).0 same))))
      | inr other ↦ inr (ground arith, λ d. ground (arith, eq_iff c h))
    ]
  ]
]

abbrev pub Passes : Request → Type 0
Passes req =
    (is_safe_method req.method ≡ true)
    ⊎ (req.fernbank_session ≡ none)
    ⊎ IsDoubled (lookup csrf_cookie_name req.cookies)
        (first_value (lookup csrf_header_name req.headers))

-- A request passes the guard exactly if its method is safe, or it has no session, or its cookie and
-- its header carry one and the same token, which is not empty; it is refused with 403 otherwise.
pub can_activate_iff :
    (req : Request)
    → ((can_activate req ≡ ok tt) × Passes req)
      ⊎ ((can_activate req ≡ throws csrf_mismatch) × ¬ Passes req)
unfolding can_activate
can_activate_iff req = elim (Bool-cases (is_safe_method req.method)) [
  | inl safe ↦ inl (ground arith, inl safe)
  | inr unsafe ↦ elim (Option-cases req.fernbank_session) [
    | inl absent ↦ inl (ground arith, inr (inl absent))
    | inr (session, present) ↦
        elim (compare_tokens_lem (lookup csrf_cookie_name req.cookies)
          (first_value (lookup csrf_header_name req.headers))) [
            | inl (passes, same) ↦ inl (ground arith, inr (inr same))
            | inr (fails, differ) ↦ inr (ground arith, ground arith)
          ]
  ]
]
