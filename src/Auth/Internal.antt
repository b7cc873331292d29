-- ===== src/Auth/Internal.antt =====
-- internal/platform/auth/apikey.go: where a request carries its key (extractKey), and the check of
-- internal callers (InternalMiddleware). What net and gin compute is an argument: the host of an
-- address, and whether a text is an IP address, a loopback or a private one.
use ykt_aisaas.Base.{
  ℕ, ◌≡◌, arith, Bool, true, false, not, ◌||◌, ◌==◌, Option, none, some, [], ◌∷◌, Text, codes,
  text_eq, if◌then◌else◌, is_space, trim,
}
use ykt_aisaas.Errs.{ErrorCode, token_invalid, ip_not_allowed}

-- What follows a prefix, if the text has it.
unfoldable pub after_prefix : Text → Text → Option Text
after_prefix [] s = some s
after_prefix (c ∷ prefix) [] = none
after_prefix (c ∷ prefix) (d ∷ s) =
    let rest = after_prefix prefix s in if c == d then rest else none

key_of : Option Text → Text → Text
unfolding trim
key_of (some rest) query = trim is_space rest
key_of none query = query

-- extractKey, of the Authorization header and the query's api_key
unfoldable pub extract_key : Text → Text → Text
unfolding key_of after_prefix
extract_key header query = key_of (after_prefix (codes "Bearer ") header) query

-- net's view of an address
pub record Addresses : Type 0 where
  pub host_of : Text → Option Text
  pub is_ip : Text → Bool
  pub is_loopback : Text → Bool
  pub is_private : Text → Bool

-- isAllowedInternalIP
unfoldable pub is_allowed_internal_ip : Addresses → Text → Bool
is_allowed_internal_ip net ip =
    if text_eq ip []
    then false
    else if not (net.is_ip ip)
    then false
    else net.is_loopback ip || net.is_private ip

-- The caller that goes on, or the error of the answer.
pub data InternalCall : Type 0 where
  go_on : (tenant_id : ℕ) → (unlimited : Bool) → InternalCall
  denied : ErrorCode → InternalCall

from_host : Addresses → Option Text → InternalCall
unfolding is_allowed_internal_ip
from_host net none = denied ip_not_allowed
from_host net (some host) =
    if not (is_allowed_internal_ip net host) then denied ip_not_allowed else go_on 1 true

-- InternalMiddleware
unfoldable pub internal_middleware : Addresses → Text → Text → Text → InternalCall
unfolding from_host
internal_middleware net token header remote =
    if not (text_eq header token) then denied token_invalid else from_host net (net.host_of remote)

-- Internal callers run as tenant 1.
pub internal_middleware_tenant :
    (net : Addresses) (token header remote : Text) (tid : ℕ) (unlimited : Bool)
    → internal_middleware net token header remote ≡ go_on tid unlimited
    → tid ≡ 1
unfolding internal_middleware
internal_middleware_tenant net token header remote tid unlimited h =
    entered (not (text_eq header token)) h
  where
    hosted : (host : Option Text) → from_host net host ≡ go_on tid unlimited → tid ≡ 1
    hosted none h = unfold from_host in absurd (ground (arith, h))
    hosted (some host) h = unfold from_host in ground (arith, h)

    entered :
        (b : Bool)
        → (if b then denied token_invalid else from_host net (net.host_of remote))
          ≡ go_on tid unlimited
        → tid ≡ 1
    entered true h = absurd (ground (arith, h))
    entered false h = hosted (net.host_of remote) h
