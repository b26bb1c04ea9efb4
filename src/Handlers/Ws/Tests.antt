-- ===== src/Handlers/Ws/Tests.antt =====
-- Connections of one user, and a token that is presented by a client.
use pactum_codex.Base.{
  leb, if◌then◌else◌, ℕ, ◌+◌, ◌≡◌, refl, false, none, some, List, [], ◌∷◌, exists, arith,
}
use pactum_codex.State.World.{World, ok}
use pactum_codex.State.Sample.{calm, config}
use pactum_codex.Services.SolanaPay.{codes}
use pactum_codex.Services.Jwt.{issue_access_token}
use pactum_codex.Handlers.Auth.Tests.{library}
use pactum_codex.Handlers.Ws.Connection.{Connection, Server, of_user, upgrade, settle}
use pactum_codex.Handlers.Ws.Connection.Lost.{second_connection_lost}
use pactum_codex.Handlers.Ws.Admission.{
  extract_jwt_token, HeaderMap, Response, is_allowed_origin, ws_handler,
  ws_handler-issue_access_token,
}

abbrev online : World
online = record calm { ws_channels = 4 ∷ [] }

-- User 8 is connected, and opens a second connection.
abbrev first : Connection
first = record { id = 1; user = 8 }

abbrev second : Connection
second = record { id = 2; user = 8 }

abbrev served : Server
served = record {
  channels = record { id = 1; user = 8 } ∷ [];
  live = record { id = 1; user = 8 } ∷ [];
}

second_connection_lost_example :
    let t = settle 2 (upgrade second served) in
    (exists (of_user 8) t.channels ≡ false) × (exists (of_user 8) t.live ≡ false)
second_connection_lost_example =
    second_connection_lost first second served refl refl (λ h. omega arith)

abbrev allowed : HeaderMap
allowed = record { origin = some (codes "https://pactum.app"); authorization = none }

abbrev first_char : List ℕ → ℕ
first_char [] = 0
first_char (c ∷ cs) = c

-- The token 42 is issued for the user 7001 at the time 1000000, for 900 seconds.
abbrev signing : World
signing = record calm { supply = λ n. n + 7002 }

issues : (issue_access_token library config 7001 (some 5) signing).0 ≡ ok 42
unfolding issue_access_token
issues = refl

ws_handler-issue_access_token_example :
    ws_handler library first_char config 1000800 allowed (some (42 ∷ [])) ≡ (
      if is_allowed_origin allowed
      then if leb 1000800 1000900 then Response.upgrade 7001 else Response.unauthorized
      else Response.forbidden)
unfolding extract_jwt_token
ws_handler-issue_access_token_example =
    ws_handler-issue_access_token library first_char config 7001 42 (some 5) signing 1000800 allowed
      (some (42 ∷ [])) (42 ∷ []) issues refl refl
