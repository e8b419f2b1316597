-- ===== src/Store/Sessions/Reading.antt =====
-- internal/store/sqlite/sessions.go: what `ByToken` reads after the other operations.
use mathlib.Core.Option
use travelmap.Base.{
  ℕ, ◌≤◌, ◌<◌, ◌≡◌, refl, ap, String, not, Option, none, some, List, [], ◌∷◌, filter, find,
  if◌then◌else◌, arith, Bool-cases, inl, inr,
}
use travelmap.Base.Text.{same_text, same_text_left, same_text_comm}
use travelmap.Model.{Time}
use travelmap.Model.Settings.{Session}
use travelmap.Store.{Db, unix_time}
use travelmap.Store.Times.{unix_time_mono}
use travelmap.Store.Sessions.{live, upsert_row, upsert_session, delete_session, sweep, expired}

abbrev pub contents_of : Option Session → Option (List ℕ)
contents_of = Option.map (λ (s : Session). s.contents)

-- What `ByToken` finds of a session that has not expired.
abbrev pub opened : String → Time → Db → Option (List ℕ)
opened token now db = contents_of (find (live token now) db.sessions)

upsert_row-find :
    (session : Session) (token : String) (now : Time) (ss : List Session)
    → unix_time now < unix_time session.expiry
    → contents_of (find (live token now) (upsert_row session ss)) ≡ (
        if same_text session.token token
        then some session.contents
        else contents_of (find (live token now) ss))
unfolding upsert_row
upsert_row-find session token now [] h = ground (arith, h)
upsert_row-find session token now (s ∷ ss) h = elim (Bool-cases (same_text s.token session.token)) [
  | inl e ↦ rw e (ground (arith, h, same_text_left s.token session.token token e))
  | inr e ↦ rw e (
      ground (
        arith,
        e,
        same_text_left session.token token s.token,
        same_text_comm session.token s.token,
        same_text_comm token s.token,
        upsert_row-find session token now ss h,
      ))
]

-- After Upsert of a session that has not expired at a time, ByToken at that time finds the
-- session's data under its token, and under any other token what it found before.
pub upsert_session-opened :
    (session : Session) (token : String) (now : Time) (db : Db)
    → unix_time now < unix_time session.expiry
    → opened token now (upsert_session session db).1
      ≡ (if same_text session.token token then some session.contents else opened token now db)
unfolding upsert_session
upsert_session-opened session token now db h = upsert_row-find session token now db.sessions h

sweep-find :
    (earlier now : Time) (token : String) (ss : List Session)
    → unix_time earlier ≤ unix_time now
    → find (live token now) (filter (λ (s : Session). not (expired earlier s)) ss)
      ≡ find (live token now) ss
sweep-find earlier now token [] h = refl
sweep-find earlier now token (s ∷ ss) h = ground (arith, h, sweep-find earlier now token ss h)

sweep-opened :
    (earlier now : Time) (token : String) (db : Db)
    → earlier ≤ now
    → opened token now (sweep earlier db).1 ≡ opened token now db
unfolding sweep
sweep-opened earlier now token db h =
    ap contents_of (sweep-find earlier now token db.sessions (unix_time_mono earlier now h))

delete-find :
    (gone token : String) (now : Time) (ss : List Session)
    → contents_of
        (find (live token now) (filter (λ (s : Session). not (same_text s.token gone)) ss))
      ≡ (if same_text gone token then none else contents_of (find (live token now) ss))
delete-find gone token now [] = ground arith
delete-find gone token now (s ∷ ss) = elim (Bool-cases (same_text s.token gone)) [
  | inl e ↦
      rw e (ground (arith, same_text_left s.token gone token e, delete-find gone token now ss))
  | inr e ↦ rw e (
      ground (
        arith,
        e,
        same_text_left gone token s.token,
        same_text_comm gone s.token,
        same_text_comm token s.token,
        delete-find gone token now ss,
      ))
]

delete_session-opened :
    (gone token : String) (now : Time) (db : Db)
    → opened token now (delete_session gone db).1
      ≡ (if same_text gone token then none else opened token now db)
unfolding delete_session
delete_session-opened gone token now db = delete-find gone token now db.sessions

-- DeleteExpired takes away nothing that ByToken finds at the same or a later time; after
-- Delete of a token ByToken finds nothing under it, and under any other token what it found
-- before.
pub gone-opened :
    (earlier now : Time) (gone token : String) (db : Db)
    → earlier ≤ now
    → (opened token now (sweep earlier db).1 ≡ opened token now db)
      × (opened token now (delete_session gone db).1
          ≡ (if same_text gone token then none else opened token now db))
gone-opened earlier now gone token db h =
    (sweep-opened earlier now token db h, delete_session-opened gone token now db)
