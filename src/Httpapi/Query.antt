-- ===== src/Httpapi/Query.antt =====
-- internal/httpapi/points.go: the reading of query and path parameters, and the headers of a page.
pub mod Pages
use travelmap.Base.{
  ℕ, ◌+◌, ◌-◌, ◌/◌, String, Option, none, some, List, [], ◌∷◌, if◌then◌else◌, leb, ltb, ◌==◌,
}
use travelmap.Base.Text.{same_text}
use travelmap.Base.Integers.{ℤ, max_int, parse_int, bits}
use travelmap.Model.{Time}
use travelmap.Exec.{Result, ok, err}
use travelmap.Httpapi.Dto.{Body}
use travelmap.Httpapi.Response.{
  Layout, Std, Api, Response, Handler, reply, write_json, server_error,
}

abbrev pub positive_or : ℕ → Option ℤ → ℕ
positive_or otherwise none = otherwise
positive_or otherwise (some (ℤ.negsuc n)) = otherwise
positive_or otherwise (some (ℤ.pos n)) = if n == 0 then otherwise else n

unfoldable pub positive_int : String → ℕ → ℕ
unfolding parse_int
positive_int s otherwise = positive_or otherwise (parse_int s)

unfoldable pub first_layout : Std → String → List Layout → Option Time
first_layout std s [] = none
first_layout std s (layout ∷ layouts) =
    let rest = first_layout std s layouts in
    elim (std.parse_time layout s) [ none ↦ rest | some t ↦ some t ]

-- The outer none is a value that is refused, the inner one a value that is left empty.
abbrev pub given : Option Time → Option (Option Time)
given none = none
given (some t) = some (some t)

abbrev pub unix_or : Std → Option ℤ → Option (Option Time) → Option (Option Time)
unix_or std none otherwise = otherwise
unix_or std (some secs) otherwise = some (some (std.of_unix secs))

unfoldable pub parse_query_time : Std → String → Option (Option Time)
unfolding first_layout parse_int
parse_query_time std s =
    if same_text s ""
    then some none
    else unix_or std (parse_int s)
        (given (first_layout std s (Layout.rfc3339 ∷ Layout.date_only ∷ [])))

-- An id by its bits.
unfoldable pub parse_point_id : String → Option ℕ
unfolding parse_int
parse_point_id s = elim (parse_int s) [ none ↦ none | some id ↦ some (bits id) ]

unfoldable pub parse_id_param : String → Option ℕ
unfolding parse_int
parse_id_param s = elim (parse_int s) [ none ↦ none | some id ↦ some (bits id) ]

abbrev pub negated : ℕ → ℤ
negated n = if n == 0 then ℤ.pos 0 else ℤ.negsuc (n - 1)

-- (total + perPage - 1) / perPage in 64 bits: a sum that does not fit is negative, and the division
-- rounds toward zero.
unfoldable pub total_pages : ℕ → ℕ → ℤ
total_pages total per_page =
    let sum = total + per_page - 1 in
    if leb sum max_int
    then ℤ.pos (sum / per_page)
    else negated ((18_446_744_073_709_551_616 - sum) / per_page)

-- What a listing answers with a page of the store's rows and their total.
unfoldable pub write_page :
    Api → {A : Type 0} → (List A → Body) → (page per_page : ℕ) → Result (List A × ℕ) → Handler
unfolding total_pages write_json server_error
write_page api body page per_page (err e) = reply (server_error api)
write_page api body page per_page (ok (rows, total)) =
    reply (record (write_json api 200 (body rows)) {
      current_page = some page;
      total_pages = some (total_pages total per_page);
    })
