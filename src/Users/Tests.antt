-- ===== src/Users/Tests.antt =====
-- The theorems on the store, applied to a small one.
use snx_edge.Common.{false, [], ◌∷◌, none, some, codes}
use snx_edge.Users.LastAdmin.{IsValid}
use snx_edge.Users.Reachable.{StoreCall, after_all, after_all-IsValid}
use snx_edge.Users.TestStore.{store, plain, store-IsValid}

-- A second administrator comes, and the first one goes.
after_all-IsValid_example : IsValid (
    after_all plain
      (StoreCall.create (codes "u3") 200 (codes "carol") (codes "long enough") (codes "admin") []
        ∷ StoreCall.login_failed (codes "u3") 5 15 210
        ∷ StoreCall.remove (codes "u1")
        ∷ StoreCall.update (codes "u3") none none (some false) 220
        ∷ [])
      store)
after_all-IsValid_example =
    after_all-IsValid plain
      (StoreCall.create (codes "u3") 200 (codes "carol") (codes "long enough") (codes "admin") []
        ∷ StoreCall.login_failed (codes "u3") 5 15 210
        ∷ StoreCall.remove (codes "u1")
        ∷ StoreCall.update (codes "u3") none none (some false) 220
        ∷ [])
      store store-IsValid
