-- ===== src/Models/Roles.antt =====
-- `UserRole` of models.rs.
use rustpress_plugin_authpro.Base.{String, Bool, true, false}

pub data UserRole : Type 0 where
  user author editor admin : UserRole

unfoldable pub is_admin : UserRole → Bool
is_admin admin = true
is_admin _ = false

unfoldable pub can_publish : UserRole → Bool
can_publish author = true
can_publish editor = true
can_publish admin = true
can_publish _ = false

unfoldable pub can_moderate : UserRole → Bool
can_moderate editor = true
can_moderate admin = true
can_moderate _ = false

-- Also `impl Display`, which prints it.
unfoldable pub as_str : UserRole → String
as_str user = "user"
as_str author = "author"
as_str editor = "editor"
as_str admin = "admin"
