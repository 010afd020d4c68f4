-- ===== src/Users/TestStore.antt =====
-- A store with an administrator, an operator and a session, and a password hash that shows the password.
use snx_edge.Common.{refl, true, [], ◌∷◌, none, some, codes, text_eq}
use snx_edge.Users.Store.{User, Session, Db, Bcrypt, is_active_admin, has_id}
use snx_edge.Users.LastAdmin.{IsValid}

abbrev pub alice : User
alice = record {
  id = codes "u1";
  username = codes "alice";
  password_hash = codes "correct horse";
  role = codes "admin";
  comment = [];
  enabled = true;
  created_at = 100;
  updated_at = 100;
  failed_login_attempts = 0;
  locked_until = none;
  token_generation = 4;
}

abbrev pub bob : User
bob = record {
  id = codes "u2";
  username = codes "bob";
  password_hash = codes "battery staple";
  role = codes "operator";
  comment = codes "night shift";
  enabled = true;
  created_at = 100;
  updated_at = 100;
  failed_login_attempts = 1;
  locked_until = none;
  token_generation = 2;
}

abbrev pub bobs_session : Session
bobs_session = record {
  session_id = codes "s1";
  user_id = codes "u2";
  ip_address = none;
  user_agent = none;
  session_created_at = 100;
  expires_at = 700000;
}

abbrev pub store : Db
store = record { users = alice ∷ bob ∷ []; sessions = bobs_session ∷ []; app_state = [] }

abbrev pub plain : Bcrypt
plain = record {
  hash = λ password cost. some password;
  verify = λ password hash. some (text_eq password hash);
  cost = λ hash. some 13;
}

pub store-IsValid : IsValid store
unfolding is_active_admin has_id text_eq
store-IsValid = record { keys = (refl, (refl, tt)); has_admin = refl }
