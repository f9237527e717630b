-- ===== src/Lifecycle/PendingInit.antt =====
-- The server of a node that waits for its initialization or recovery
-- (lifecycle/pending-init/server.mjs, lifecycle/pending-init/recovery-routes.mjs,
-- lifecycle/pending-init/authentication.mjs).
pub mod Recovering
pub mod Guarded
pub mod Listener
pub mod Sql
use elera.Prelude.{
  ℕ, zero, suc, ◌+◌, ◌-◌, ◌*◌, ◌/◌, ◌%◌, ◌^◌, ◌≤◌, ◌<◌, min, max, String, ◌≡◌, refl, sym, ap, ap₂,
  subst, ◌∙◌, ◌≢◌, ◌↔◌, ◌⊎◌, inl, inr, Bool, true, false, not, ◌&&◌, ◌||◌, Option, none, some, List,
  [], ◌∷◌, ◌++◌, map, Memᴰ, arith, eq_iff, ltb, leb, nat_eqb, Eq, ◌==◌, nat_eq, string_eq,
  if◌then◌else◌, ltb→lt, lt→ltb, leb→le, Bool-cases, Option-cases, &&-left, &&-right, is_some,
  length, filter, any, all, find, count, head?, get_last?, length-append, length-filter,
  count-le-length, mem-filter, mem-filter_of, any_of_mem, mem_of_any, all_mem, any-false_mem,
  find-some, find-none, count-add-le, mem_of_count, count_le_of, count_pos, includes, dedupe,
  dedupe_onto, nat_eqb_iff,
}
use elera.Prelude.Text.{append}
use elera.Fqdn.{fqdn_loose}
use elera.Http.{Method, get, post, starts_with, ends_with, is_get, is_post, is_text}

-- The members of a body that the handlers read. `confirm` and `dry_run` say whether the value is
-- `true`.
pub record Body : Type 0 where
  pub confirm : Bool
  pub action : Option String
  pub node : Option String

-- `url` is `request.url`, `path` its path name; a body is `none` where it is no JSON.
pub record Request : Type 0 where
  pub method : Method
  pub url : String
  pub path : String
  pub authorization : Option String
  pub body : Option Body

-- What `createPendingInitServer` closes over. `has` says which operations the recovery protocol
-- offers; there is a protocol or not.
pub record Server : Type 0 where
  pub root_token : Option String
  pub name : String
  pub members : List String
  pub recovery_required : Bool
  pub protocol : Bool
  pub has : String → Bool
  pub cold_evidence : Bool
  pub data_reset : Bool

pub data Operation : Type 0 where
  standalone_init bootstrap join join_pending : Operation

-- What a handler goes on to call.
pub data Call : Type 0 where
  cold_evidence status evidence plan retry authorize begin_bootstrap complete reset : Call
  join_node : String → Call
  initialize : Operation → Call

-- An answer that is sent at once, with its status, or a call whose outcome makes the answer.
pub data Answer : Type 0 where
  reply : ℕ → Answer
  perform : Call → Answer

-- `createPendingInitAuthenticator`
unfoldable pub is_authorized : Server → Request → Bool
unfolding append
is_authorized s r = by s.root_token
  where
    by : Option String → Bool
    by none = false
    by (some t) = not (t == "") && is_text r.authorization (append "Bearer " t)

abbrev pub when_protocol : Server → Answer → Answer
when_protocol s a = if s.protocol then a else reply 503

-- `readBody`, which refuses a text that is no JSON.
abbrev pub with_body : Option Body → (Body → Answer) → Answer
with_body none k = reply 400
with_body (some b) k = k b

abbrev operation_call : String → Call
operation_call path =
    if ends_with path "/authorize"
    then authorize
    else if ends_with path "/bootstrap"
    then begin_bootstrap
    else complete

abbrev operation_name : String → String
operation_name path =
    if ends_with path "/authorize"
    then "authorize"
    else if ends_with path "/bootstrap"
    then "beginBootstrap"
    else "complete"

abbrev pub is_named : Option String → Bool
is_named none = false
is_named (some n) = fqdn_loose n

abbrev pub join_call : Option String → Answer
join_call none = reply 400
join_call (some n) = perform (join_node n)

abbrev pub is_member : Server → Option String → Bool
is_member s none = false
is_member s (some n) = any (λ m. m == n) s.members

-- A join: of a qualified name, which is another member.
unfoldable pub join_route : Server → Body → Answer
join_route s b =
    if not (is_named b.node)
    then reply 400
    else if is_text b.node s.name
    then reply 409
    else if not (is_member s b.node)
    then reply 400
    else join_call b.node

abbrev pub is_operation : String → Bool
is_operation path =
    ends_with path "/authorize" || ends_with path "/bootstrap" || ends_with path "/complete"

-- The protocol's operations with a body.
unfoldable pub operation_route : Server → Request → Answer
operation_route s r = when_protocol s (
    with_body r.body
      (λ b. if s.has (operation_name r.path) then perform (operation_call r.path) else reply 503))

-- An authorized request for the recovery; `none` where the handler leaves it to the server.
unfoldable pub recovery_route : Server → Request → Option Answer
unfolding join_route operation_route ends_with
recovery_route s r =
    if is_get r.method && ends_with r.path "/status"
    then some (perform status)
    else if is_get r.method && ends_with r.path "/evidence"
    then some (perform evidence)
    else if not (is_post r.method)
    then none
    else if ends_with r.path "/plan" || ends_with r.path "/retry"
    then some (when_protocol s (perform (if ends_with r.path "/retry" then retry else plan)))
    else if is_operation r.path
    then some (operation_route s r)
    else if ends_with r.path "/join"
    then some (with_body r.body (join_route s))
    else none

-- `handlePendingRecoveryRoute`
unfoldable pub handle_pending_recovery_route : Server → Request → Option Answer
unfolding recovery_route is_authorized starts_with
handle_pending_recovery_route s r =
    if not s.recovery_required || not (starts_with r.path "/api/v1/cluster/cold-recovery/")
    then none
    else if not (is_authorized s r)
    then some (reply 401)
    else recovery_route s r

-- `standaloneOperation`, `none` where it throws.
unfoldable pub standalone_operation : Server → Option Operation
standalone_operation s =
    if ltb (length s.members) 2
    then some standalone_init
    else if not (nat_eqb (count (λ m. m == s.name) s.members) 1)
    then none
    else if is_text (head? s.members) s.name
    then some bootstrap
    else some join_pending

abbrev pub is_lifecycle : Request → Bool
is_lifecycle r = r.url == "/api/v1/cluster/lifecycle/apply"

abbrev pub asks_join : Request → Body → Bool
asks_join r b = r.url == "/api/v1/cluster/join" || (is_lifecycle r && is_text b.action "join")

abbrev pub operation_of : Server → Request → Body → Option Operation
operation_of s r b =
    if asks_join r b
    then some join
    else if r.url == "/api/v1/initialization/apply"
    then standalone_operation s
    else some bootstrap

-- One initialization at a time.
abbrev pub begin_operation : (busy : Bool) → Option Operation → Answer
begin_operation busy none = reply 400
begin_operation true (some o) = reply 409
begin_operation false (some o) = perform (initialize o)

unfoldable pub initialize_route : Server → (busy : Bool) → Request → Body → Answer
unfolding standalone_operation
initialize_route s busy r b =
    if s.recovery_required && is_lifecycle r && is_text b.action "bootstrap"
    then reply 503
    else if not b.confirm
    then reply 409
    else if is_lifecycle r && not (is_text b.action "bootstrap" || is_text b.action "join")
    then reply 400
    else begin_operation busy (operation_of s r b)

abbrev pub is_one_of : String → List String → Bool
is_one_of url urls = any (λ u. url == u) urls

abbrev pub unless_allowed : Server → Request → Answer → Answer
unless_allowed s r a = if is_authorized s r then a else reply 401

-- The requests that the recovery does not take.
unfoldable pub serve : Server → (busy : Bool) → Request → Answer
unfolding initialize_route is_authorized
serve s busy r =
    if s.recovery_required
      && is_post r.method
      && is_one_of r.url ("/api/v1/cluster/bootstrap" ∷ "/api/v1/initialization/apply" ∷ [])
    then unless_allowed s r (reply 503)
    else if is_post r.method
        && is_one_of r.url (
            "/api/v1/cluster/bootstrap" ∷ "/api/v1/cluster/join" ∷ "/api/v1/cluster/lifecycle/apply"
            ∷ "/api/v1/initialization/apply" ∷ [])
    then unless_allowed s r (with_body r.body (initialize_route s busy r))
    else if is_post r.method && r.url == "/api/v1/node/data/reset"
    then unless_allowed s r
        (if s.data_reset then with_body r.body (λ b. perform reset) else reply 503)
    else reply 503

abbrev pub or_serve : Option Answer → Answer → Answer
or_serve (some a) b = a
or_serve none b = b

-- The listener of `createPendingInitServer`; `busy` says whether an initialization is under way.
unfoldable pub handle : Server → (busy : Bool) → Request → Answer
unfolding handle_pending_recovery_route serve
handle s busy r =
    if r.url == "/healthz"
    then reply 200
    else if r.url == "/readyz"
    then reply 503
    else if is_get r.method && r.url == "/api/v1/cluster/cold-bootstrap/evidence"
    then unless_allowed s r (if s.cold_evidence then perform cold_evidence else reply 503)
    else or_serve (handle_pending_recovery_route s r) (serve s busy r)
