-- ===== src/Authz/Permissions.antt =====
-- The permission keys of internal/authz/permissions.go that the modelled code names.
use request_system.Common.{String}

abbrev pub orders_create : String
orders_create = "order:create"

abbrev pub orders_view : String
orders_view = "order:view"

abbrev pub orders_update : String
orders_update = "order:update"

abbrev pub orders_delete : String
orders_delete = "order:delete"

abbrev pub scope_own : String
scope_own = "scope:own"

abbrev pub scope_otdel : String
scope_otdel = "scope:otdel"

abbrev pub scope_office : String
scope_office = "scope:office"

abbrev pub scope_branch : String
scope_branch = "scope:branch"

abbrev pub scope_department : String
scope_department = "scope:department"

abbrev pub scope_all : String
scope_all = "scope:all"

abbrev pub scope_all_view : String
scope_all_view = "scope:all_view"

abbrev pub orders_update_in_otdel_scope : String
orders_update_in_otdel_scope = "order:update_in_otdel_scope"

abbrev pub orders_update_in_office_scope : String
orders_update_in_office_scope = "order:update_in_office_scope"

abbrev pub orders_update_in_branch_scope : String
orders_update_in_branch_scope = "order:update_in_branch_scope"

abbrev pub orders_update_in_department_scope : String
orders_update_in_department_scope = "order:update_in_department_scope"
