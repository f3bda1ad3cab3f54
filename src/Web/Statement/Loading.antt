-- ===== src/Web/Statement/Loading.antt =====
-- How frontend/src/app/(app)/accounts/[accountId]/page.tsx loads a statement page by page. The query
-- library is an argument: `start` is what it gives once the first page is there, `fetch` what it gives
-- once a call of `fetchNextPage` is over.
use fernbank.Base.{
  ℕ, zero, suc, ◌+◌, ◌-◌, ◌<◌, ◌≤◌, ◌≡◌, refl, ap, sym, subst, ◌∙◌, inl, inr, Bool, true, false,
  List, [], ◌∷◌, ◌++◌, String, Option, none, some, or_else, length, length-append, arith,
  Bool-cases, if◌then◌else◌,
}
use fernbank.Base.Text.{is_empty, trim}
use fernbank.Bff.Dashboard.{StatementEntryResponse}
use fernbank.Web.Queries.{get_next_page_param}
use fernbank.Web.Statement.{
  Platform, StatementPage, StatementQuery, flat_map, all_entries, filter_entries, is_match,
  matching, entries, count, fetches_next_page,
}

abbrev pub is_given : Option String → Bool
is_given none = false
is_given (some cursor) = true

-- The server's pages from a cursor on, each at the cursor that the page before gives, to the last one.
pub data Chain (serve : Option String → StatementPage)
    : Option String → List StatementPage → Type 0 where
  ends :
      {cursor : Option String}
      → get_next_page_param (serve cursor) ≡ none
      → Chain serve cursor (serve cursor ∷ [])
  leads :
      {cursor : Option String} {next : String} {pages : List StatementPage}
      → get_next_page_param (serve cursor) ≡ some next
      → Chain serve (some next) pages
      → Chain serve cursor (serve cursor ∷ pages)

-- What is loaded: some pages and the one at a cursor, behind which there may be more.
abbrev pub IsAt :
    (Option String → StatementPage) → StatementQuery → List StatementPage → Option String → Type 0
IsAt serve query before cursor =
    (query.pages ≡ some (before ++ (serve cursor ∷ [])))
    × (query.has_next_page ≡ is_given (get_next_page_param (serve cursor)))
    × (query.is_fetching_next_page ≡ false)

-- What the library documents: the first page is that of no cursor, a next page is the one at the cursor
-- that `getNextPageParam` gives for the last one, and there is one exactly if it gives some.
pub record IsInfiniteQuery (serve : Option String → StatementPage) (start : StatementQuery)
    (fetch : StatementQuery → StatementQuery) : Type 0 where
  pub starts : IsAt serve start [] none
  pub follows :
      (query : StatementQuery) (before : List StatementPage) (cursor : Option String)
      (next : String)
      → IsAt serve query before cursor
      → get_next_page_param (serve cursor) ≡ some next
      → IsAt serve (fetch query) (before ++ (serve cursor ∷ [])) (some next)

-- The last row, if the list is shown, which it is not while no entry matches.
abbrev pub last_row : Bool → ℕ → Option ℕ
last_row has_next_page zero = none
last_row has_next_page (suc n) = some (count has_next_page (suc n) - 1)

-- The user scrolls to the last row, and the call that the effect makes, if any, comes back.
unfoldable pub scroll :
    Platform → String → (StatementQuery → StatementQuery) → StatementQuery → StatementQuery
unfolding entries fetches_next_page
scroll env sought fetch query =
    let n = length (entries env query sought) in
    if fetches_next_page (last_row query.has_next_page n) n query then fetch query else query

unfoldable pub scrolls :
    ℕ → Platform → String → (StatementQuery → StatementQuery) → StatementQuery → StatementQuery
unfolding scroll
scrolls zero env sought fetch query = query
scrolls (suc n) env sought fetch query = scrolls n env sought fetch (scroll env sought fetch query)

append-append : {A : Type 0} (xs ys zs : List A) → (xs ++ ys) ++ zs ≡ xs ++ (ys ++ zs)
append-append [] ys zs = refl
append-append (x ∷ xs) ys zs = ap (λ l. x ∷ l) (append-append xs ys zs)

flat_map-append : (ps qs : List StatementPage) → flat_map (ps ++ qs) ≡ flat_map ps ++ flat_map qs
unfolding flat_map
flat_map-append [] qs = refl
flat_map-append (p ∷ ps) qs =
    ap (λ l. or_else p.data_in [] ++ l) (flat_map-append ps qs)
    ∙ sym (append-append (or_else p.data_in []) (flat_map ps) (flat_map qs))

filter_entries-append :
    (keeps : StatementEntryResponse → Bool) (xs ys : List StatementEntryResponse)
    → length (filter_entries keeps (xs ++ ys))
      ≡ length (filter_entries keeps xs) + length (filter_entries keeps ys)
unfolding filter_entries
filter_entries-append keeps [] ys = omega arith
filter_entries-append keeps (x ∷ xs) ys = ground (arith, filter_entries-append keeps xs ys)

-- More entries match at least as often.
matching-append :
    (env : Platform) (sought : String) (xs ys : List StatementEntryResponse)
    → length (matching env sought xs) ≤ length (matching env sought (xs ++ ys))
unfolding matching
matching-append env sought xs ys = elim (Bool-cases (is_empty (trim sought))) [
  | inl blank ↦ rw blank (omega (arith, length-append xs ys))
  | inr given ↦
      rw given
        (omega (arith, filter_entries-append (is_match env (env.lower_case (trim sought))) xs ys))
]

-- At the last row the effect asks for the next page, if there is one and some entry is shown.
fetches_next_page-last_row :
    (n : ℕ) (query : StatementQuery)
    → 0 < n
    → query.is_fetching_next_page ≡ false
    → fetches_next_page (last_row query.has_next_page n) n query ≡ query.has_next_page
unfolding fetches_next_page count
fetches_next_page-last_row zero query h idle = ground (arith, h)
fetches_next_page-last_row (suc n) query h idle = ground (arith, idle)

module _ (env : Platform) (sought : String) (serve : Option String → StatementPage)
    (fetch : StatementQuery → StatementQuery)
    (follows : (query : StatementQuery) (before : List StatementPage) (cursor : Option String)
        (next : String)
      → IsAt serve query before cursor
      → get_next_page_param (serve cursor) ≡ some next
      → IsAt serve (fetch query) (before ++ (serve cursor ∷ [])) (some next)) where
  -- Some entry is on display.
  abbrev IsShown : StatementQuery → Type 0
  IsShown query = 0 < length (entries env query sought)

  scroll-fetch :
      (query : StatementQuery)
      → IsShown query
      → query.is_fetching_next_page ≡ false
      → scroll env sought fetch query ≡ (if query.has_next_page then fetch query else query)
  unfolding scroll
  scroll-fetch query shown idle =
      rw (fetches_next_page-last_row (length (entries env query sought)) query shown idle) refl

  grown :
      (query : StatementQuery) (before : List StatementPage) (cursor : Option String)
      (next : String)
      → IsAt serve query before cursor
      → IsAt serve (fetch query) (before ++ (serve cursor ∷ [])) (some next)
      → IsShown query
      → IsShown (fetch query)
  unfolding entries all_entries
  grown query before cursor next at later shown =
      let seen = before ++ (serve cursor ∷ []) in
      let had : 0 < length (matching env sought (flat_map seen)) = rw at.0 at shown in
      rw (later.0, flat_map-append seen (serve (some next) ∷ []))
        (omega (
          arith,
          had,
          matching-append env sought (flat_map seen) (flat_map (serve (some next) ∷ [])),
        ))

  -- All pages are there, and no scrolling asks for more.
  abbrev Done : List StatementPage → StatementQuery → Type 0
  Done pages query =
      (query.pages ≡ some pages)
      × (query.has_next_page ≡ false)
      × (scroll env sought fetch query ≡ query)

  loads :
      (query : StatementQuery) (before : List StatementPage) (cursor : Option String)
      (pages : List StatementPage)
      → IsAt serve query before cursor
      → IsShown query
      → Chain serve cursor pages
      → Done (before ++ pages) (scrolls (length pages) env sought fetch query)
  unfolding scrolls
  loads query before cursor _ at shown (ends last) =
      let no_next : query.has_next_page ≡ false = at.1 ∙ ap is_given last in
      let same =
        scroll-fetch query shown at.2 ∙ ap (λ b. if b then fetch query else query) no_next in
      subst (Done (before ++ (serve cursor ∷ []))) (sym same) (at.0, no_next, same)
  loads query before cursor _ at shown (leads {next = next} {pages = pages} e chain) =
      let later = follows query before cursor next at e in
      let moved =
        scroll-fetch query shown at.2
        ∙ ap (λ b. if b then fetch query else query) (at.1 ∙ ap is_given e) in
      let rest =
        loads (fetch query) (before ++ (serve cursor ∷ [])) (some next) pages later
          (grown query before cursor next at later shown) chain in
      subst
        (λ q. Done (before ++ (serve cursor ∷ pages)) (scrolls (length pages) env sought fetch q))
        (sym moved)
        (subst (λ ps. Done ps (scrolls (length pages) env sought fetch (fetch query)))
          (append-append before (serve cursor ∷ []) pages) rest)

-- The server's statement consists of the pages of a chain from the first one on, and some entry of the
-- first page matches what is sought. Then scrolling to the last row as often as there are pages loads
-- them all, in order, each once; the list then holds the entries of the whole statement that match, and
-- no more scrolling asks for another page.
pub scrolls-loads :
    (env : Platform) (sought : String) (serve : Option String → StatementPage)
    (start : StatementQuery) (fetch : StatementQuery → StatementQuery) (pages : List StatementPage)
    → IsInfiniteQuery serve start fetch
    → 0 < length (entries env start sought)
    → Chain serve none pages
    → ((scrolls (length pages) env sought fetch start).pages ≡ some pages)
      × (entries env (scrolls (length pages) env sought fetch start) sought
          ≡ matching env sought (flat_map pages))
      × ((scrolls (length pages) env sought fetch start).has_next_page ≡ false)
      × (scroll env sought fetch (scrolls (length pages) env sought fetch start)
          ≡ scrolls (length pages) env sought fetch start)
unfolding entries all_entries
scrolls-loads env sought serve start fetch pages library shown chain =
    let h =
      loads env sought serve fetch library.follows start [] none pages library.starts shown chain in
    (h.0, rw h.0 refl, h.1, h.2)
