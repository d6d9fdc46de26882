-- ===== src/Middleware/User.antt =====
-- backend/pkg/middleware/auth.go: the authenticated user that the request context carries.
use cargobay.Prelude.{String, List}

pub record User : Type 0 where
  pub user_id : String
  pub username : String
  pub email : String
  pub roles : List String
  pub permissions : List String
  -- "full", or "read" for a read-only personal access token
  pub scope : String
