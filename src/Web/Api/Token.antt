-- ===== src/Web/Api/Token.antt =====
-- How the CSRF token comes from the browser's cookies into the header of a request.
use Prim.Native.Char.{Char, code}
use text.Mathlib.TextLemmas.{nil-append, cons-append}
use fernbank.Base.{
  ◌≡◌, ◌≢◌, refl, ap, ◌∙◌, false, List, [], ◌∷◌, ◌++◌, String, Option, none, some, ◌==◌, All, arith,
}
use fernbank.Base.Dict.{Dict, lookup, insert, lookup-insert, lookup-insert_self}
use fernbank.Base.Text.{◌+++◌, onto_head, strip_prefix, join, is_empty}
use fernbank.Base.Text.Laws.{Lacks, strip_prefix-append}
use fernbank.Web.Api.{
  Browser, split_cookies, find_entry, read_csrf_token, csrf_cookie_prefix, csrf_header_name, put,
  content_type_of, write_headers, request_headers, api_request,
}

split_cookies-cons :
    (c : Char) (s : String)
    → code c ≢ b';'
    → split_cookies (String.◌∷◌ c s) ≡ onto_head c (split_cookies s)
unfolding split_cookies
split_cookies-cons c String.[] h = refl
split_cookies-cons c (String.◌∷◌ d s) h = ground arith

split_cookies-single : (r : String) → Lacks b';' r → split_cookies r ≡ r ∷ []
unfolding split_cookies
split_cookies-single String.[] h = refl
split_cookies-single (String.◌∷◌ c r) h =
    split_cookies-cons c r h.0 ∙ ap (onto_head c) (split_cookies-single r h.1)

abbrev semicolon : Char
semicolon = ";"

abbrev blank : Char
blank = " "

separated : (s : String) → "" +++ "; " +++ s ≡ String.◌∷◌ semicolon (String.◌∷◌ blank s)
separated s = rw nil-append (
    cons-append semicolon " " s
    ∙ ap (String.◌∷◌ semicolon) (cons-append blank "" s ∙ ap (String.◌∷◌ blank) (rw nil-append)))

split_cookies-separator :
    (s : String) → split_cookies (String.◌∷◌ semicolon (String.◌∷◌ blank s)) ≡ "" ∷ split_cookies s
unfolding split_cookies
split_cookies-separator s = refl

split_cookies-append :
    (r s : String) → Lacks b';' r → split_cookies (r +++ "; " +++ s) ≡ r ∷ split_cookies s
split_cookies-append String.[] s h = ap split_cookies (separated s) ∙ split_cookies-separator s
split_cookies-append (String.◌∷◌ c r) s h =
    ap split_cookies (cons-append c r ("; " +++ s))
    ∙ split_cookies-cons c (r +++ "; " +++ s) h.0
    ∙ ap (onto_head c) (split_cookies-append r s h.1)

split_cookies-join :
    (entry : String) (entries : List String)
    → All (Lacks b';') (entry ∷ entries)
    → split_cookies (join "; " (entry ∷ entries)) ≡ entry ∷ entries
unfolding join
split_cookies-join entry [] h = split_cookies-single entry h.0
split_cookies-join entry (next ∷ entries) h =
    split_cookies-append entry (join "; " (next ∷ entries)) h.0
    ∙ ap (λ es. entry ∷ es) (split_cookies-join next entries h.1)

find_entry-append :
    (token : String) (before after : List String)
    → All (λ e. strip_prefix csrf_cookie_prefix e ≡ none) before
    → find_entry csrf_cookie_prefix (before ++ ((csrf_cookie_prefix +++ token) ∷ after))
      ≡ some token
unfolding find_entry
find_entry-append token [] after h =
    rw (find_entry, strip_prefix-append csrf_cookie_prefix token) refl
find_entry-append token (e ∷ before) after h =
    rw (find_entry, h.0) (find_entry-append token before after h.1)

read_csrf_token-join :
    (token : String) (before after : List String)
    → All (λ e. strip_prefix csrf_cookie_prefix e ≡ none) before
    → All (Lacks b';') (before ++ ((csrf_cookie_prefix +++ token) ∷ after))
    → read_csrf_token (some (join "; " (before ++ ((csrf_cookie_prefix +++ token) ∷ after))))
      ≡ some token
unfolding read_csrf_token
read_csrf_token-join token [] after first whole =
    ap (find_entry csrf_cookie_prefix)
      (split_cookies-join (csrf_cookie_prefix +++ token) after whole)
    ∙ find_entry-append token [] after first
read_csrf_token-join token (e ∷ before) after first whole =
    ap (find_entry csrf_cookie_prefix)
      (split_cookies-join e (before ++ ((csrf_cookie_prefix +++ token) ∷ after)) whole)
    ∙ find_entry-append token (e ∷ before) after first

put-other :
    (name other : String) (value : Option String) (headers : Dict String)
    → (name == other) ≡ false
    → lookup other (put name value headers) ≡ lookup other headers
put-other name other none headers e = refl
put-other name other (some value) headers e =
    rw (lookup-insert name other value headers) (rw e refl)

write_headers-token :
    (b : Browser) (token : String) (headers : Dict String)
    → read_csrf_token b.cookie ≡ some token
    → is_empty token ≡ false
    → lookup csrf_header_name (write_headers b headers) ≡ some token
write_headers-token b token headers held real = rw held (
    rw real (
      lookup-insert_self csrf_header_name token
        (insert "Idempotency-Key" b.idempotency_key headers)))

request_headers-token :
    (b : Browser) (token method : String) (body : Option String)
    → read_csrf_token b.cookie ≡ some token
    → is_empty token ≡ false
    → (method == "get") ≡ false
    → lookup csrf_header_name (request_headers b method body) ≡ some token
unfolding request_headers
request_headers-token b token method body held real writes =
    put-other "Content-Type" csrf_header_name (content_type_of body) _ refl
    ∙ rw writes
        (write_headers-token b token (("X-Correlation-Id", b.correlation_id) ∷ []) held real)

-- Wherever the CSRF cookie stands among the browser's cookies, a request of any method but get carries
-- its token in the header that the server's guard compares, if the token is not empty and no cookie
-- before it has the same name.
pub api_request-token :
    (b : Browser) (token : String) (before after : List String) (method path : String)
    (path_params query_params : Dict String) (body : Option String)
    → b.cookie ≡ some (join "; " (before ++ ((csrf_cookie_prefix +++ token) ∷ after)))
    → All (λ e. strip_prefix csrf_cookie_prefix e ≡ none) before
    → All (Lacks b';') (before ++ ((csrf_cookie_prefix +++ token) ∷ after))
    → is_empty token ≡ false
    → (method == "get") ≡ false
    → lookup csrf_header_name (api_request b method path path_params query_params body).headers
      ≡ some token
unfolding api_request
api_request-token b token before after method path path_params query_params body has first whole
      real writes =
    let held = ap read_csrf_token has ∙ read_csrf_token-join token before after first whole in
    request_headers-token b token method body held real writes
