-- ===== src/Ingest/Tests.antt =====
-- internal/ingest at concrete points.
use mathlib.Core.List.{[], ◌∷◌}
use travelmap.Base.{ℕ, refl, leb}
use travelmap.Exec.{Env, tx, outside}
use travelmap.Track.Current.{IsCurrent}
use travelmap.Ingest.{create_points, update_point, delete_point, delete_points}
use travelmap.Ingest.Sound.Single.{PointUpdated, PointDeleted, PointsDeleted}
use travelmap.Exec.Atomic.{Unchanged, tx-IsAtomic}
use travelmap.Ingest.Sound.{IsSound, PointsCreated}
use travelmap.Exec.Ensures.{Returns}
use travelmap.Ingest.Sound.Outcomes.{
  create_points-succeeds, update_point-succeeds, delete_point-succeeds, delete_points-succeeds,
}
use travelmap.Ingest.Sound.History.{History, History-IsSound, History-IsSettled, work}
use travelmap.Ingest.Consistent.{IsConsistent}
use travelmap.Fixture.{
  utc, utc-IsRegular, whole_numbers, env, env-Healthy, empty, minutes, empty-IsSound, batch,
  batch-known, filled, filled-History, filled-IsSound, first_row, found_first,
}

create_points-succeeds_example :
    Returns
      (λ n d. PointsCreated whole_numbers utc minutes batch empty d n)
      (create_points whole_numbers utc minutes batch env (outside empty))
create_points-succeeds_example =
    create_points-succeeds whole_numbers utc minutes utc-IsRegular env env-Healthy (outside empty)
      empty-IsSound batch batch-known

History-IsSound_example :
    IsSound whole_numbers utc minutes (work whole_numbers utc minutes env filled)
History-IsSound_example =
    History-IsSound whole_numbers utc minutes utc-IsRegular empty
      (work whole_numbers utc minutes env filled) (History.worked env filled-History) empty-IsSound

History-IsSettled_example :
    IsConsistent whole_numbers utc minutes (work whole_numbers utc minutes env filled)
    × ((u : ℕ) → IsCurrent whole_numbers minutes u (work whole_numbers utc minutes env filled))
History-IsSettled_example =
    History-IsSettled whole_numbers utc minutes utc-IsRegular empty filled filled-History
      empty-IsSound env env-Healthy (λ k. refl)

update_point-succeeds_example :
    Returns
      (λ updated d. PointUpdated whole_numbers utc minutes 1 1 35 139 filled updated d)
      (update_point whole_numbers utc minutes 1 1 35 139 env (outside filled))
update_point-succeeds_example =
    update_point-succeeds whole_numbers utc minutes utc-IsRegular env env-Healthy (outside filled)
      filled-IsSound 1 1 35 139 first_row found_first

delete_point-succeeds_example :
    Returns
      (λ _ d. PointDeleted whole_numbers utc minutes 1 1 filled d)
      (delete_point whole_numbers utc minutes 1 1 env (outside filled))
delete_point-succeeds_example =
    delete_point-succeeds whole_numbers utc minutes utc-IsRegular env env-Healthy (outside filled)
      filled-IsSound 1 1 first_row found_first

delete_points-succeeds_example :
    Returns
      (λ count d. PointsDeleted whole_numbers utc minutes 1 (2 ∷ 9 ∷ []) filled count d)
      (delete_points whole_numbers utc minutes 1 (2 ∷ 9 ∷ []) env (outside filled))
delete_points-succeeds_example =
    delete_points-succeeds whole_numbers utc minutes utc-IsRegular env env-Healthy (outside filled)
      filled-IsSound 1 (2 ∷ 9 ∷ [])

-- The statement fails that commits the deletion.
abbrev full_disk : Env
full_disk = record env { fails = λ k. leb 5 k }

tx-IsAtomic_example :
    Unchanged
      (outside filled)
      (tx (delete_point whole_numbers utc minutes 1 1) full_disk (outside filled))
tx-IsAtomic_example =
    tx-IsAtomic (delete_point whole_numbers utc minutes 1 1) full_disk (outside filled) refl
