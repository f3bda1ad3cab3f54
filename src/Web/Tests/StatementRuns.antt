-- ===== src/Web/Tests/StatementRuns.antt =====
-- The theorem about the loading of a statement, for one of two pages and a query library that keeps the
-- pages in a list.
use fernbank.Base.{
  ◌≡◌, refl, true, false, List, [], ◌∷◌, ◌++◌, String, Option, none, some, or_else, ◌==◌, arith,
}
use fernbank.Base.Text.{trim}
use fernbank.Bff.Dashboard.{StatementEntryResponse}
use fernbank.Web.Queries.{get_next_page_param}
use fernbank.Web.Statement.{
  Platform, StatementPage, StatementQuery, flat_map, all_entries, filter_entries, matching, entries,
}
use fernbank.Web.Statement.Loading.{
  is_given, ends, leads, IsInfiniteQuery, scroll, scrolls, scrolls-loads,
}

module _ (serve : Option String → StatementPage) where
  param_of_last : List StatementPage → Option String
  unfolding get_next_page_param
  param_of_last [] = none
  param_of_last (p ∷ []) = get_next_page_param p
  param_of_last (p ∷ q ∷ ps) = param_of_last (q ∷ ps)

  param_of_last-append :
      (ps : List StatementPage) (p : StatementPage)
      → param_of_last (ps ++ (p ∷ [])) ≡ get_next_page_param p
  unfolding param_of_last
  param_of_last-append [] p = refl
  param_of_last-append (q ∷ []) p = refl
  param_of_last-append (q ∷ r ∷ ps) p = param_of_last-append (r ∷ ps) p

  abbrev with_page : List StatementPage → StatementPage → StatementQuery
  with_page pages page = record {
    pages = some (pages ++ (page ∷ []));
    is_pending = false;
    has_next_page = is_given (get_next_page_param page);
    is_fetching_next_page = false;
  }

  abbrev fetch : StatementQuery → StatementQuery
  fetch query = with_page (or_else query.pages []) (serve (param_of_last (or_else query.pages [])))

  library : IsInfiniteQuery serve (with_page [] (serve none)) fetch
  library = record {
    starts = (refl, refl, refl);
    follows = λ query before cursor next at e.
        rw (at.0, param_of_last-append before (serve cursor), e) (refl, refl, refl);
  }

abbrev entry : String → StatementEntryResponse
entry description = record {
  id = none;
  transaction_id = none;
  created_at = none;
  amount = none;
  description = some description;
}

abbrev two_pages : Option String → StatementPage
two_pages none = record {
  data_in = some (entry "Rent" ∷ entry "Coffee" ∷ []);
  next_cursor = some "c2";
  has_next = some true;
}
two_pages (some cursor) = record {
  data_in = some (entry "Coffee" ∷ []);
  next_cursor = none;
  has_next = some false;
}

abbrev browser : Platform
browser = record {
  search_params = λ params. "";
  lower_case = λ s. s;
  includes = λ s needle. s == needle;
  intl = λ currency amount. none;
  local_time = λ time. time;
}

abbrev both : List StatementPage
both = two_pages none ∷ two_pages (some "c2") ∷ []

abbrev first_page : StatementQuery
first_page = with_page two_pages [] (two_pages none)

scrolls-loads_example :
    ((scrolls 2 browser "Coffee" (fetch two_pages) first_page).pages ≡ some both)
    × (entries browser (scrolls 2 browser "Coffee" (fetch two_pages) first_page) "Coffee"
        ≡ matching browser "Coffee" (flat_map both))
    × ((scrolls 2 browser "Coffee" (fetch two_pages) first_page).has_next_page ≡ false)
    × (scroll browser "Coffee"
          (fetch two_pages)
          (scrolls 2 browser "Coffee" (fetch two_pages) first_page)
        ≡ scrolls 2 browser "Coffee" (fetch two_pages) first_page)
unfolding get_next_page_param entries all_entries matching filter_entries flat_map trim
scrolls-loads_example =
    scrolls-loads browser "Coffee" two_pages first_page (fetch two_pages) both (library two_pages)
      (omega arith) (leads {next = "c2"} refl (ends refl))
