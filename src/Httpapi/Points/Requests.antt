-- ===== src/Httpapi/Points/Requests.antt =====
-- internal/httpapi/points.go and router.go: the requests for points, and which handler answers each.
use travelmap.Base.{String, Option}
use travelmap.Model.{User}
use travelmap.Httpapi.Dto.{LocationsRequest, PointUpdateRequest, PointsBulkDeleteRequest}
use travelmap.Httpapi.Response.{Api, Handler}
use travelmap.Httpapi.Points.{
  ListQuery, handle_create, create_overland_batch, list_points, patch_point, handle_delete,
  bulk_delete_points,
}

-- A body is none when it cannot be decoded.
pub data PointRequest : Type 0 where
  create : Option LocationsRequest → PointRequest
  overland : Option LocationsRequest → PointRequest
  list : ListQuery → PointRequest
  patch : (id : String) → Option PointUpdateRequest → PointRequest
  delete : (id : String) → PointRequest
  bulk_destroy : Option PointsBulkDeleteRequest → PointRequest

abbrev pub serve_points : Api → Option User → PointRequest → Handler
serve_points api caller (create body) = handle_create api caller body
serve_points api caller (overland body) = create_overland_batch api caller body
serve_points api caller (list q) = list_points api caller q
serve_points api caller (patch id body) = patch_point api caller id body
serve_points api caller (delete id) = handle_delete api caller id
serve_points api caller (bulk_destroy body) = bulk_delete_points api caller body
