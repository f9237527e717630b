-- ===== src/Api/Initialization.antt =====
-- The routes of the initialization and of the managed metadata
-- (api/routes/initialization.mjs, api/routes/metadata.mjs, api/routes/node-data-reset.mjs).
use elera.Prelude.{
  String, Bool, not, ◌&&◌, ◌||◌, Option, none, some, ◌==◌, nat_eq, string_eq, if◌then◌else◌,
}
use elera.Http.{Method, is_get, is_post}
use elera.Api.{Auth, Handled, passed, replied, called, answers, when_confirmed, when_allowed}

-- What the routes call: a look for the system database, the query for the accounts, the
-- initialization by the metadata service or by two statements, and the service itself.
pub data InitializationCall : Type 0 where
  look query_accounts initialize_metadata create_and_flush : InitializationCall

pub data MetadataCall : Type 0 where
  status initialize verify : MetadataCall

pub data ResetCall : Type 0 where
  reset : ResetCall

-- `confirm` of a body is `none` where the body does not parse.
unfoldable pub confirmed : {C : Type 0} → Option Bool → Handled C → Handled C
confirmed none h = replied 400
confirmed (some b) h = when_confirmed b h

-- `handleInitializationRoute`; `managed` says whether the metadata service can initialize.
unfoldable pub handle_initialization_route :
    (managed : Bool) → Method → String → Option Bool → Handled InitializationCall
unfolding confirmed
handle_initialization_route managed m path confirm =
    if is_get m && path == "/api/v1/initialization"
    then answers look 200
    else if is_post m && path == "/api/v1/initialization/verify"
    then answers query_accounts 200
    else if is_post m && path == "/api/v1/initialization/plan"
    then replied 200
    else if is_post m && path == "/api/v1/initialization/apply"
    then confirmed confirm
        (if managed then answers initialize_metadata 200 else answers create_and_flush 200)
    else passed

-- `handleMetadataRoute`
unfoldable pub handle_metadata_route : Method → String → Option Bool → Handled MetadataCall
unfolding confirmed
handle_metadata_route m path confirm =
    if is_get m && path == "/api/v1/metadata/status"
    then answers status 200
    else if is_post m && path == "/api/v1/metadata/initialize"
    then confirmed confirm (answers initialize 200)
    else if is_post m && path == "/api/v1/metadata/verify"
    then called verify 200 503
    else passed

-- `handleNodeDataResetRoute`; `parses` says whether the body does.
unfoldable pub handle_node_data_reset_route :
    Method → String → Auth → (parses : Bool) → Handled ResetCall
handle_node_data_reset_route m path auth parses =
    if not (is_post m) || not (path == "/api/v1/node/data/reset")
    then passed
    else when_allowed auth.root (if parses then called reset 200 202 else replied 400)
