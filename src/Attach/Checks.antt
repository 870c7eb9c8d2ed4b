-- ===== src/Attach/Checks.antt =====
-- The checks that precede an attachment: they do not write
-- (internal/services/clients/client_attachment_service.go).
use backend_v.Base.{
  ◌>>◌, ◌==◌, if_set, Result, err, reject_if, ok, String, Bool, false, not, ◌&&◌, ◌||◌, Option,
  none, some, str_eq,
}
use backend_v.Attach.Model.{
  Credentials, Client, same_status, rejected, ClientRouteAttachment, refused, removed, AttachError,
}
use backend_v.Write.Security.{validate_ext_auth, Text}
use backend_v.Traffic.Checks.{Std, Check}
use backend_v.Traffic.RateLimit.{validate_rate_limit}

abbrev pub is_reusable : ClientRouteAttachment → Bool
is_reusable a = same_status a.status removed || same_status a.status rejected

-- The client is attached already, or is about to be.
abbrev pub is_taken : Option ClientRouteAttachment → Bool
is_taken none = false
is_taken (some a) = not (is_reusable a)

abbrev pub is_general : String → Bool
is_general mode = str_eq mode "general" || str_eq mode ""

-- The checks before that of mTLS, and those after it.
unfoldable pub validate_keys : Credentials → Client → Check
validate_keys c client = do
  reject_if
      (not c.enable_ip_allowlist
        && (not c.enable_api_key && (not c.enable_jwt && not c.enable_mtls)))
      "at least one authentication method must be enabled"
  reject_if (c.enable_api_key && not client.api_key_enabled)
      "client does not have an API key configured; generate one first"
  reject_if (c.enable_jwt && not client.jwt_enabled)
      "client does not have JWT configured; configure JWT first"

unfoldable pub validate_rest : Std → Text → Credentials → Client → Check
validate_rest std text c client = do
  reject_if (c.enable_ip_allowlist && (client.ip_address_count == 0))
      "client has no IP addresses configured; add IP addresses first"
  reject_if (c.enable_header_auth && (client.header_count == 0))
      "client has no headers configured; add headers first"
  if_set c.rate_limit_config (λ l. validate_rate_limit std (some l))
  if_set c.ext_auth (validate_ext_auth text)

abbrev pub refuse : Check → Result AttachError (Unit {0})
refuse (ok a) = ok a
refuse (err e) = err (refused e)
