-- ===== src/Api/Artifacts.antt =====
-- The routes for the stored secrets (api/routes/artifacts.mjs).
use elera.Prelude.{
  ℕ, String, Bool, not, ◌&&◌, ◌||◌, Option, none, some, List, [], ◌∷◌, ◌==◌, nat_eq, string_eq,
  if◌then◌else◌,
}
use elera.Prelude.Text.{codes, split_on}
use elera.Http.{Method, get, post, put, delete, is_get, starts_with, ends_with, same_codes}
use elera.Api.{Auth, Handled, passed, replied, answers, has_scope, when_allowed}

-- `artifactStore`'s operations; `put` has the body, a JSON text.
pub data ArtifactCall : Type 0 where
  list : ArtifactCall
  get_secret verify remove : String → ArtifactCall
  put_secret : String → String → ArtifactCall

abbrev is_word : List ℕ → String → Bool
is_word c w = same_codes c (codes w)

abbrev pub is_secrets : List ℕ → List ℕ → List ℕ → List ℕ → List ℕ → Bool
is_secrets a b c d name =
    is_word a ""
    && is_word b "api"
    && is_word c "v1"
    && is_word d "secrets"
    && not (is_word name "")

-- path.match(/^\/api\/v1\/secrets\/([^/]+)(?:\/verify)?$/), on the pieces between the slashes.
unfoldable pub secret_name : List (List ℕ) → Option (List ℕ)
unfolding codes
secret_name (a ∷ b ∷ c ∷ d ∷ name ∷ []) = if is_secrets a b c d name then some name else none
secret_name (a ∷ b ∷ c ∷ d ∷ name ∷ v ∷ []) =
    if is_secrets a b c d name && is_word v "verify" then some name else none
secret_name _ = none

-- The routes of one secret. The body is `none` where it does not parse.
unfoldable pub one_secret :
    Method → String → Auth → (body : Option String) → String → Handled ArtifactCall
unfolding has_scope ends_with
one_secret get path auth body name =
    when_allowed (has_scope auth "backup:read") (answers (get_secret name) 200)
one_secret post path auth body name =
    if ends_with path "/verify"
    then when_allowed (has_scope auth "backup:read") (answers (verify name) 200)
    else passed
one_secret put path auth none name = when_allowed (has_scope auth "backup:create") (replied 400)
one_secret put path auth (some b) name =
    when_allowed (has_scope auth "backup:create") (answers (put_secret name b) 200)
one_secret delete path auth body name =
    when_allowed (has_scope auth "backup:restore") (answers (remove name) 200)
one_secret _ path auth body name = passed

-- A name that does not decode throws a URIError.
abbrev pub decoded : Method → String → Auth → Option String → Option String → Handled ArtifactCall
decoded m path auth body none = replied 500
decoded m path auth body (some name) = one_secret m path auth body name

abbrev pub matched :
    (List ℕ → Option String)
    → Method
    → String
    → Auth
    → Option String
    → Option (List ℕ)
    → Handled ArtifactCall
matched decode m path auth body none = passed
matched decode m path auth body (some name) = decoded m path auth body (decode name)

-- `handleArtifactRoute`; `decode` is `decodeURIComponent`.
unfoldable pub handle_artifact_route :
    (store : Bool) (decode : List ℕ → Option String)
    → Method
    → String
    → Auth
    → Option String
    → Handled ArtifactCall
unfolding one_secret secret_name starts_with has_scope codes split_on
handle_artifact_route store decode m path auth body =
    if not store || not (starts_with path "/api/v1/secrets")
    then passed
    else if is_get m && path == "/api/v1/secrets"
    then when_allowed (has_scope auth "backup:read") (answers list 200)
    else matched decode m path auth body (secret_name (split_on b'/' (codes path)))
