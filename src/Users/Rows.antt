-- ===== src/Users/Rows.antt =====
-- Sessions and persisted application state (db.rs).
use snx_edge.Common.{
  ℕ, ◌-◌, Bool, not, ◌&&◌, ◌||◌, List, [], ◌∷◌, ◌++◌, Option, none, some, Text, text_eq, any, keep,
  find, length, ltb, if◌then◌else◌,
}
use snx_edge.Errors.{conflict, ok, err, M}
use snx_edge.Users.Store.{Db, Session, has_id}

-- The primary key may refuse the row, and the foreign key asks for the user.
unfoldable pub create_session : Text → Text → Option Text → Option Text → ℕ → ℕ → M Db (Unit {0})
create_session jti owner ip agent expires now db =
    if any (λ s. text_eq s.session_id jti) db.sessions || not (any (has_id owner) db.users)
    then (err conflict, db)
    else (
      ok tt,
      record db {
        sessions =
            db.sessions
            ++ record {
              session_id = jti;
              user_id = owner;
              ip_address = ip;
              user_agent = agent;
              session_created_at = now;
              expires_at = expires;
            }
              ∷ [];
      },
    )

unfoldable pub delete_session : Text → M Db (Unit {0})
delete_session i db =
    (ok tt, record db { sessions = keep (λ s. not (text_eq s.session_id i)) db.sessions })

abbrev pub owner_of : Option Session → Option Text
owner_of none = none
owner_of (some s) = some s.user_id

unfoldable pub session_owner : Text → M Db (Option Text)
session_owner i db = (ok (owner_of (find (λ s. text_eq s.session_id i) db.sessions)), db)

unfoldable pub delete_user_sessions : Text → M Db ℕ
delete_user_sessions owner db =
    let left = keep (λ s. not (text_eq s.user_id owner)) db.sessions in
    (ok (length db.sessions - length left), record db { sessions = left })

unfoldable pub count_user_sessions : Text → ℕ → M Db ℕ
count_user_sessions owner now db =
    (ok (length (keep (λ s. text_eq s.user_id owner && ltb now s.expires_at) db.sessions)), db)

unfoldable pub session_exists : Text → ℕ → M Db Bool
session_exists jti now db =
    (ok (any (λ s. text_eq s.session_id jti && ltb now s.expires_at) db.sessions), db)

unfoldable pub cleanup_expired_sessions : ℕ → M Db ℕ
cleanup_expired_sessions now db =
    let left = keep (λ s. not (ltb s.expires_at now)) db.sessions in
    (ok (length db.sessions - length left), record db { sessions = left })

unfoldable pub lookup_state : Text → List (Text × Text) → Option Text
lookup_state k [] = none
lookup_state k ((j, v) ∷ m) = let rest = lookup_state k m in if text_eq j k then some v else rest

-- `INSERT … ON CONFLICT(key) DO UPDATE`
unfoldable pub upsert : Text → Text → List (Text × Text) → List (Text × Text)
upsert k v [] = (k, v) ∷ []
upsert k v ((j, w) ∷ m) =
    let rest = upsert k v m in if text_eq j k then (j, v) ∷ m else (j, w) ∷ rest

unfoldable pub set_app_state : Text → Text → M Db (Unit {0})
unfolding upsert
set_app_state k v db = (ok tt, record db { app_state = upsert k v db.app_state })

unfoldable pub get_app_state : Text → M Db (Option Text)
unfolding lookup_state
get_app_state k db = (ok (lookup_state k db.app_state), db)

unfoldable pub delete_app_state : Text → M Db (Unit {0})
delete_app_state k db =
    (ok tt, record db { app_state = keep (λ e. not (text_eq e.0 k)) db.app_state })
