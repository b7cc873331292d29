-- ===== src/Errs.antt =====
-- internal/platform/errs/errs.go: the platform's error codes, their HTTP status, and which errors end
-- a stream; and the printing of a code in internal/platform/web/web.go (itoa). `code_of` is a code's
-- number. A code that is none of the constants is `unknown`.
pub mod Codes
use ykt_aisaas.Base.{
  String, ℕ, zero, suc, ◌+◌, ◌/◌, ◌%◌, ltb, ◌==◌, Bool, true, false, ℤ, pos, negsuc, Option, none,
  some, List, [], ◌∷◌, Text, if◌then◌else◌,
}

pub data ErrorCode : Type 0 where
  ok invalid_param invalid_json invalid_api_key api_key_expired ip_not_allowed token_invalid :
      ErrorCode
  quota_exceeded balance_insuff rate_limited tenant_frozen forbidden model_not_found : ErrorCode
  resource_not_found conflict tenant_context_lost internal provider_error provider_timeout :
      ErrorCode
  unknown : ℕ → ErrorCode

unfoldable pub code_of : ErrorCode → ℕ
code_of ok = 0
code_of invalid_param = 40001
code_of invalid_json = 40002
code_of invalid_api_key = 40101
code_of api_key_expired = 40102
code_of ip_not_allowed = 40103
code_of token_invalid = 40104
code_of quota_exceeded = 40201
code_of balance_insuff = 40202
code_of rate_limited = 40203
code_of tenant_frozen = 40301
code_of forbidden = 40302
code_of model_not_found = 40401
code_of resource_not_found = 40404
code_of conflict = 40901
code_of tenant_context_lost = 50001
code_of internal = 50002
code_of provider_error = 50201
code_of provider_timeout = 50202
code_of (unknown n) = n

-- HTTPStatus, with the numbers of net/http; a code that the map lacks is a 500.
unfoldable pub http_status : ErrorCode → ℕ
http_status ok = 200
http_status invalid_param = 400
http_status invalid_json = 400
http_status invalid_api_key = 401
http_status api_key_expired = 401
http_status ip_not_allowed = 401
http_status token_invalid = 401
http_status quota_exceeded = 402
http_status balance_insuff = 402
http_status rate_limited = 429
http_status tenant_frozen = 403
http_status forbidden = 403
http_status model_not_found = 404
http_status resource_not_found = 404
http_status conflict = 409
http_status tenant_context_lost = 500
http_status internal = 500
http_status provider_error = 502
http_status provider_timeout = 504
http_status (unknown n) = 500

-- Message
unfoldable pub message : ErrorCode → String
message ok = "success"
message invalid_param = "参数错误"
message invalid_json = "请求体解析失败"
message invalid_api_key = "API Key 无效"
message api_key_expired = "API Key 已过期"
message ip_not_allowed = "IP 不在白名单"
message token_invalid = "Token 无效"
message quota_exceeded = "配额不足"
message balance_insuff = "余额不足"
message rate_limited = "请求过于频繁"
message tenant_frozen = "租户已冻结"
message forbidden = "权限不足"
message model_not_found = "模型不存在或未启用"
message resource_not_found = "资源不存在"
message conflict = "资源已存在"
message tenant_context_lost = "租户上下文丢失"
message internal = "系统内部错误"
message provider_error = "上游服务异常"
message provider_timeout = "上游服务超时"
message (unknown n) = "未知错误"

-- Error, without the detail that no constructor sets; a cause is its text.
pub record PlatformError : Type 0 where
  pub code : ErrorCode
  pub msg : String
  pub cause : Option String

-- New, with the first of the messages that it is given
unfoldable pub new_error : ErrorCode → List String → PlatformError
unfolding message
new_error code [] = record { code = code; msg = message code; cause = none }
new_error code (msg ∷ more) = record { code = code; msg = msg; cause = none }

-- Wrap
unfoldable pub wrap : ErrorCode → String → List String → PlatformError
unfolding new_error
wrap code cause msg = record (new_error code msg) { cause = some cause }

-- An error as the code looks at it: the `*Error` that it is or wraps, if any, by its code.
abbrev pub Failure : Type 0
Failure = Option ErrorCode

-- From, and the code that it answers with
unfoldable pub code_from : Failure → ErrorCode
code_from none = internal
code_from (some c) = c

fatal_code : ErrorCode → Bool
fatal_code provider_error = false
fatal_code provider_timeout = false
fatal_code internal = false
fatal_code tenant_context_lost = false
fatal_code _ = true

-- IsFatal
unfoldable pub is_fatal : Failure → Bool
unfolding fatal_code
is_fatal none = true
is_fatal (some c) = fatal_code c

-- The loop of itoa that fills the buffer from its end; the number itself is fuel enough, since each
-- turn divides it by ten.
digits_before : ℕ → ℕ → Text → Text
digits_before zero i buffer = buffer
digits_before (suc fuel) i buffer =
    let rest = digits_before fuel (i / 10) ((48 + i % 10) ∷ buffer) in
    if i == 0 then buffer else rest

unfoldable pub itoa : ℤ → Text
unfolding digits_before
itoa (pos zero) = 48 ∷ []
itoa (pos (suc n)) = digits_before (suc n) (suc n) []
itoa (negsuc n) = 45 ∷ digits_before (suc n) (suc n) []
