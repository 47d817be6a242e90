-- ===== src/Datasources/Ldap/Filter.antt =====
-- internal/datasources/ldap/identity.go: `substituteFilterToken`.
use authzmtls.Common.{Bytes}
use authzmtls.GoStd.Replace.{replace_all}

-- `substituteFilterToken`; `escape` is go-ldap's `EscapeFilter`.
unfoldable pub substitute_filter_token : (Bytes → Bytes) → Bytes → Bytes → Bytes → Bytes
unfolding replace_all
substitute_filter_token escape template token raw_value =
    replace_all template token (escape raw_value)
