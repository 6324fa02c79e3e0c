-- ===== src/Api/Headers/Limits.antt =====
-- The limits of the request's headers.
use odoo_cloudflare_email.Prelude.{◌≤◌, ◌≡◌, true, [], ◌∷◌, All, length, is_empty, arith}
use odoo_cloudflare_email.Text.{byte_length}
use odoo_cloudflare_email.Text.Dict.{Dict}
use odoo_cloudflare_email.Errors.{ok}
use odoo_cloudflare_email.Api.Host.{Host}
use odoo_cloudflare_email.Api.Mime.{Headers}
use odoo_cloudflare_email.Api.Headers.{
  header_size, too_long, check_limits, passthrough_headers, threaded, max_header_bytes,
  max_header_count, max_header_value_bytes,
}

pub record IsWithinLimits (d : Dict) : Type 0 where
  pub values : All (λ e. byte_length e.1 ≤ max_header_value_bytes) d
  pub size : header_size d ≤ max_header_bytes
  pub count : length d ≤ max_header_count

values_of_too_long :
    (d : Dict)
    → is_empty (too_long d) ≡ true
    → All (λ e. byte_length e.1 ≤ max_header_value_bytes) d
unfolding too_long
values_of_too_long [] e = tt
values_of_too_long ((name, value) ∷ d) e = (ground arith, values_of_too_long d (ground arith))

pub check_limits-IsWithinLimits :
    (d d' : Dict) → check_limits d ≡ ok d' → (d ≡ d') × IsWithinLimits d
unfolding check_limits
check_limits-IsWithinLimits d d' e = (
  ground arith,
  record {
    values = values_of_too_long d (ground arith);
    size = ground arith;
    count = ground arith;
  },
)

-- The headers of an accepted message have at most 2,048 bytes a value, 16 KiB in total with four
-- bytes for each line, and 20 names.
pub passthrough_headers-IsWithinLimits :
    (h : Host) (message : Headers) (d : Dict)
    → passthrough_headers h message ≡ ok d
    → IsWithinLimits d
unfolding passthrough_headers
passthrough_headers-IsWithinLimits h message d e =
    let (same, limits) = check_limits-IsWithinLimits (threaded h message).1 d e in rw same at limits
