-- ===== src/Service/Atomic.antt =====
-- cmd/sso-service/authorization-server.go: the two handlers that write tables are all or nothing.
use mono_sso.Prelude.{◌≡◌, some}
use mono_sso.Constants.{ResponseStatus}
use mono_sso.Service.State.{State, Call, Platform}
use mono_sso.Service.Authorization.{GrantScopesRequest, grant_scopes}
use mono_sso.Service.Authorization.Grants.{grant_scopes_atomic}
use mono_sso.Service.RefreshToken.{NewRefreshTokenRequest, new_refresh_token}
use mono_sso.Service.RefreshToken.Checks.{new_refresh_token_atomic}

-- A call of `NewRefreshToken` or of `GrantScopes` that reports an error has changed nothing, and has
-- logged nothing.
pub errors_atomic :
    (platform : Platform) (call : Call) (req : NewRefreshTokenRequest) (req' : GrantScopesRequest)
    (s s' : State) {status status' : ResponseStatus}
    → (new_refresh_token platform call req s).0.status ≡ some status
    → (grant_scopes call req' s').0 ≡ some status'
    → ((new_refresh_token platform call req s).1 ≡ s) × ((grant_scopes call req' s').1 ≡ s')
errors_atomic platform call req req' s s' h h' =
    (new_refresh_token_atomic platform call req s h, grant_scopes_atomic call req' s' h')
