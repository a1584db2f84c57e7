-- ===== src/Go/Error.antt =====
-- Go's `error` values, as far as the program tells them apart: by their text, by `errors.Is`,
-- `os.IsNotExist` and `apierrors.IsNotFound`, and by the gRPC status that they carry.
use niova_block_csi.Prelude.{String, ◌<>◌, Bool, true, false}

-- The codes of `google.golang.org/grpc/codes` that the program returns.
pub data Code : Type 0 where
  invalid_argument deadline_exceeded not_found already_exists resource_exhausted : Code
  failed_precondition aborted unimplemented internal : Code

pub data Error : Type 0 where
  -- `errors.New`, and `fmt.Errorf` without `%w`: only a text.
  plain : String → Error
  -- `fmt.Errorf("…%w", err)`: the text in front, and the error that it wraps.
  wrapped : String → Error → Error
  -- A `*PathError` for which `os.IsNotExist` holds.
  not_exist : String → Error
  -- `jwt.ErrTokenExpired`
  token_expired : String → Error
  -- An API error of Kubernetes with the reason NotFound.
  api_not_found : String → Error
  -- A `godbus.Error`, with its name.
  dbus_error : String → String → Error
  -- `status.Error` and `status.Errorf`
  status : Code → String → Error

code_text : Code → String
code_text invalid_argument = "InvalidArgument"
code_text deadline_exceeded = "DeadlineExceeded"
code_text not_found = "NotFound"
code_text already_exists = "AlreadyExists"
code_text resource_exhausted = "ResourceExhausted"
code_text failed_precondition = "FailedPrecondition"
code_text aborted = "Aborted"
code_text unimplemented = "Unimplemented"
code_text internal = "Internal"

-- `err.Error()`
unfoldable pub error_text : Error → String
unfolding code_text
error_text (plain m) = m
error_text (wrapped m e) = m <> error_text e
error_text (not_exist m) = m
error_text (token_expired m) = m
error_text (api_not_found m) = m
error_text (dbus_error n m) = m
error_text (status c m) = "rpc error: code = " <> code_text c <> " desc = " <> m

-- `os.IsNotExist(err)`, which does not look through wrapping.
abbrev pub is_not_exist : Error → Bool
is_not_exist (not_exist m) = true
is_not_exist _ = false

-- `errors.Is(err, jwt.ErrTokenExpired)`, which does.
unfoldable pub is_token_expired : Error → Bool
is_token_expired (token_expired m) = true
is_token_expired (wrapped m e) = is_token_expired e
is_token_expired _ = false

-- `apierrors.IsNotFound(err)`
abbrev pub is_api_not_found : Error → Bool
is_api_not_found (api_not_found m) = true
is_api_not_found _ = false
