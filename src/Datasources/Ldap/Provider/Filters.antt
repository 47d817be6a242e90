-- ===== src/Datasources/Ldap/Provider/Filters.antt =====
-- The structure of the filters that are sent to the directory.
use authzmtls.Common.{◌≡◌, refl, [], Bytes}
use authzmtls.Datasources.Ldap.Filter.{substitute_filter_token}
use authzmtls.Datasources.Ldap.Provider.{
  SearchConfig, Directory, user_request, group_request, escaped_identity,
}
use authzmtls.GoStd.Replace.Structure.{structure, structure-replace_all}
use authzmtls.Rules.Reqvars.{Vars}

-- The parentheses, wildcards and NULs of the filters sent to the directory are those of the
-- configured filters, in the same order, whatever the caller's identity and the account's name are,
-- if go-ldap's `EscapeFilter` escapes them all, as it documents.
pub requests-structure :
    {Conn W : Type 0} (dir : Directory Conn W)
    → ((v : Bytes) → structure (dir.escape_filter v) ≡ [])
    → (users groups : SearchConfig) (vars : Vars) (dn : Bytes)
    → (structure (user_request dir users (escaped_identity dir vars)).filter
        ≡ structure users.filter)
      × (structure (group_request dir groups dn).filter ≡ structure groups.filter)
unfolding substitute_filter_token
requests-structure dir escapes users groups vars dn = (
  structure-replace_all users.filter _ _ (escaped_identity dir vars) refl (escapes _),
  structure-replace_all groups.filter _ _ (dir.escape_filter dn) refl (escapes dn),
)
