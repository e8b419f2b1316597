-- ===== src/Foursquare.antt =====
-- internal/foursquare/checkin.go, push.go and client.go: the payloads, and the walk over the pages
-- of a user's check-ins.
pub mod Walked
pub mod Kept
use travelmap.Base.{
  ℕ, zero, suc, ◌+◌, ◌*◌, ◌/◌, String, Bool, true, false, ◌||◌, ◌&&◌, not, Option, none, some, List,
  [], ◌∷◌, filter, length, find, min, if◌then◌else◌, ltb, leb, ◌==◌,
}
use travelmap.Base.Integers.{ℤ}
use travelmap.Base.Text.{append, same_text}
use travelmap.Model.{Time, Float64, second}
use travelmap.Exec.{Error, Exec, pure, ◌>>=◌, with_steps}
use travelmap.Store.{Db, Action}

pub record Category : Type 0 where
  pub id : String
  pub name : String
  pub primary : Bool

pub record Location : Type 0 where
  pub lat : Float64
  pub lng : Float64
  pub cc : String
  pub city : String
  pub state : String
  pub country : String

pub record Venue : Type 0 where
  pub id : String
  pub name : String
  pub location : Location
  pub categories : List Category

-- `created_at` is in whole seconds from the zero of the times.
pub record Checkin : Type 0 where
  pub id : String
  pub created_at : ℕ
  pub timezone_offset : Option ℤ
  pub shout : Option String
  pub user_id : String
  pub venue : Option Venue
  pub raw : String

unfoldable pub primary_category : List Category → Option Category
primary_category [] = none
primary_category (c ∷ cs) = elim (find (λ (x : Category). x.primary) (c ∷ cs)) [
  | none ↦ some c
  | some x ↦ some x
]

-- The `meta` block of a response.
pub record ResponseMeta : Type 0 where
  pub code : ℕ
  pub error_type : String
  pub error_detail : String
  pub error_message : String
  pub request_id : String

pub record ApiError : Type 0 where
  pub status_code : ℕ
  pub code : ℕ
  pub error_type : String
  pub error_detail : String
  pub request_id : String

abbrev pub authorization_revoked : ApiError → Bool
authorization_revoked e = same_text e.error_type "not_authorized"

-- What ends a walk or a run: the client's errors and the store's.
pub data Fault : Type 0 where
  unreachable unparsed no_progress : Fault
  api_error : ApiError → Fault
  store_error : Error → Fault

-- What encoding/json and strings.TrimSpace make of texts; a check-in is decoded without `raw`.
pub record Json : Type 0 where
  pub envelope : String → Option (ResponseMeta × List String)
  pub item : String → Option Checkin
  pub trim_space : String → String

unfoldable pub parse_push_checkin : Json → String → Option Checkin
parse_push_checkin json raw = elim (json.item raw) [
  | none ↦ none
  | some c ↦ some (record c { raw = raw })
]

pub data Fetched : Type 0 where
  page : List Checkin → Fetched
  refusal : Fault → Fetched

abbrev pub with_item : Option Checkin → String → Option (List Checkin) → Option (List Checkin)
with_item (some c) raw (some cs) = some (record c { raw = raw } ∷ cs)
with_item (some c) raw none = none
with_item none raw cs = none

-- The items of a page, or none if one of them does not parse.
unfoldable pub parse_items : Json → List String → Option (List Checkin)
parse_items json [] = some []
parse_items json (raw ∷ items) = with_item (json.item raw) raw (parse_items json items)

abbrev pub items_page : Option (List Checkin) → Fetched
items_page none = refusal Fault.unparsed
items_page (some cs) = page cs

abbrev pub api_refusal : Json → ℕ → ResponseMeta → Fault
api_refusal json status meta = Fault.api_error (record {
  status_code = status;
  code = meta.code;
  error_type = meta.error_type;
  error_detail = json.trim_space (append meta.error_detail (append " " meta.error_message));
  request_id = meta.request_id;
})

abbrev pub status_alone : ℕ → Fault
status_alone status =
    Fault.api_error (record {
      status_code = status;
      code = 0;
      error_type = "";
      error_detail = "";
      request_id = "";
    })

unfoldable pub decode_checkins : Json → ℕ → String → Fetched
unfolding parse_items
decode_checkins json status body = elim (json.envelope body) [
  | none ↦ if status == 200 then refusal Fault.unparsed else refusal (status_alone status)
  | some (meta, items) ↦
      if status == 200
      then items_page (parse_items json items)
      else refusal (api_refusal json status meta)
]

-- What http.Client.Do and io.ReadAll give.
pub data Reply : Type 0 where
  lost : Reply
  answered : (status : ℕ) (body : String) → Reply

unfoldable pub checkins : Json → Reply → Fetched
unfolding decode_checkins
checkins json lost = refusal Fault.unreachable
checkins json (answered status body) = decode_checkins json status body

abbrev pub page_limit : ℕ
page_limit = 250

-- The time that `Time.IsZero` tests for, January 1 of the year 1.
abbrev pub zero_time : Time
zero_time = 9_223_371_966_579_724_800 * second

unfoldable pub in_window : Time → List Checkin → List Checkin
in_window after cs =
    if after == zero_time
    then cs
    else filter (λ (c : Checkin). leb (after / second) c.created_at) cs

-- The least creation time of a page, in seconds.
unfoldable pub oldest_of : ℕ → List Checkin → ℕ
oldest_of oldest [] = oldest
oldest_of oldest (c ∷ cs) = oldest_of (min c.created_at oldest) cs

-- How a walk ends. `spent` is the end of the fuel.
pub data Ended : Type 0 where
  complete spent : Ended
  stopped : Fault → Ended

module _ {S : Type 0} (fetch : ℕ → ℕ → Fetched) (after : Time)
    (fn : List Checkin → S → Action (S × Option Fault)) where
  abbrev pub given : List Checkin → S → Action (S × Option Fault)
  given [] s = pure (s, none)
  given (c ∷ cs) s = fn (c ∷ cs) s

  -- After `fn`: the end of the data, of the window, no progress, or the next page.
  abbrev pub page_done :
      ℕ → ℕ → ℕ → ℕ → (ℕ → S → Action (S × Ended)) → S × Option Fault → Action (S × Ended)
  page_done offset previous size oldest next (s, some fault) = pure (s, Ended.stopped fault)
  page_done offset previous size oldest next (s, none) =
      elim (ltb size page_limit || ltb (oldest * second) after) [
        | true ↦ pure (s, Ended.complete)
        | false ↦ elim (ltb 0 offset && not (ltb oldest previous)) [
          | true ↦ pure (s, Ended.stopped Fault.no_progress)
          | false ↦ next oldest s
        ]
      ]

  abbrev pub page_read : ℕ → ℕ → (ℕ → S → Action (S × Ended)) → Fetched → S → Action (S × Ended)
  page_read offset previous next (refusal fault) s = pure (s, Ended.stopped fault)
  page_read offset previous next (page []) s = pure (s, Ended.complete)
  page_read offset previous next (page (c ∷ cs)) s =
      given (in_window after (c ∷ cs)) s
      >>= page_done offset previous (length (c ∷ cs)) (oldest_of c.created_at cs) next

  unfoldable pub walk : ℕ → ℕ → ℕ → S → Action (S × Ended)
  unfolding ◌>>=◌ in_window oldest_of
  walk zero offset previous s = pure (s, Ended.spent)
  walk (suc fuel) offset previous s =
      with_steps λ k. page_read offset previous (walk fuel (offset + page_limit)) (fetch k offset) s

  -- A walk goes back in time with every page, so that a page more than the seconds before its first
  -- page is enough.
  abbrev pub pages_before : Fetched → ℕ
  pages_before (refusal fault) = 1
  pages_before (page []) = 1
  pages_before (page (c ∷ cs)) = suc (suc (oldest_of c.created_at cs))

  unfoldable pub each_checkin_page : S → Action (S × Ended)
  unfolding walk
  each_checkin_page s = with_steps λ k. walk (pages_before (fetch k 0)) 0 0 s
