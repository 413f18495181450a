-- ===== src/ShardServer.antt =====
-- internal/shardserver/server.go: the HTTP handler over a shard store. A request is handled in one
-- step: the store locks itself, and uploads are serialised by `transfer`.
mod Cases
pub mod Access
pub mod Content
pub mod Sequences
pub mod Refines
use peertopeer.Prelude.{
  ℕ, zero, suc, Bool, true, false, ◌&&◌, ◌||◌, not, Option, none, some, List, [], ◌∷◌,
}
use peertopeer.Prelude.{length, ltb, leb, ◌==◌, if◌then◌else◌, Result, ok, err, Error}
use peertopeer.Prelude.{invalid_hash, quota_exceeded, not_owner, not_exist, failed}
use peertopeer.Prelude.Text.{
  Bytes, text, equal, is_empty, to_lower, trim_space, has_prefix, trim_prefix,
}
use peertopeer.Prelude.Text.{contains_any}
use peertopeer.Prelude.Int.{ℤ, pos, ltb_ℤ, pos_part}
use peertopeer.Protocol
use peertopeer.Protocol.{Info}
use peertopeer.AtomicFile.{Dir}
use peertopeer.Digest.{Sha256, hash}
use peertopeer.LocalStore
use peertopeer.LocalStore.{Env}

-- `identify` is the mesh's resolver of remote addresses, where there is one.
pub record Options : Type 0 where
  pub identify : Option (Bytes → Result Bytes)
  pub members : List Bytes
  pub restrict_members : Bool
  pub share_id : Bytes
  pub name : Bytes
  pub read_only : Bool
  pub max_shard_bytes : ℤ

-- The options of `HandlerWithIdentity`, and of `Handler` where there is no resolver.
abbrev pub identity_options : Option (Bytes → Result Bytes) → Options
identity_options identify = record {
  identify = identify;
  members = [];
  restrict_members = false;
  share_id = [];
  name = [];
  read_only = false;
  max_shard_bytes = pos 0;
}

-- What arrives of a request's body: all of it, or a part and then an error.
pub data Body : Type 0 where
  full : Bytes → Body
  broken : Bytes → Body

-- `share` is the header `X-Dstore-Share`, empty where there is none.
pub record Request : Type 0 where
  pub remote_addr : Bytes
  pub share : Bytes
  pub method : Bytes
  pub path : Bytes
  pub body : Body

pub data Answer : Type 0 where
  nothing : Answer
  message : Bytes → Answer
  shard : Bytes → Answer
  info : Info → Answer

pub record Response : Type 0 where
  pub status : ℕ
  pub answer : Answer

-- `http.Error`
abbrev pub http_error : ℕ → Bytes → Response
http_error code m = record { status = code; answer = message m }

-- `opts.MaxShardBytes`, with its default.
unfoldable pub shard_limit : Options → ℤ
shard_limit o =
    if ltb_ℤ (pos 0) o.max_shard_bytes then o.max_shard_bytes else Protocol.default_max_shard_bytes

-- `members[strings.ToLower(caller)]`, over the names that the map was made of.
unfoldable pub is_member : List Bytes → Bytes → Bool
is_member [] caller = false
is_member (name ∷ names) caller =
    equal (to_lower (trim_space name)) (to_lower caller) || is_member names caller

-- The caller, or the answer to one that is not let in.
pub data Admission : Type 0 where
  denied : Response → Admission
  admitted : Bytes → Admission

-- `Identify`, or no name where there is no resolver.
unfoldable pub caller_of : Options → Request → Option Bytes
caller_of o r = elim o.identify [
  | none ↦ some []
  | some identify ↦ elim (identify r.remote_addr) [
    | err _ ↦ none
    | ok caller ↦ if is_empty caller then none else some caller
  ]
]

-- The three tests that stand before everything else.
unfoldable pub admit : Options → Request → Admission
admit o r = elim (caller_of o r) [
  | none ↦ denied (http_error 403 (text "mesh identity required"))
  | some caller ↦
      if o.restrict_members && not (is_member o.members caller)
      then denied (http_error 403 (text "device is not a sharing member"))
      else if not (is_empty o.share_id) && not (equal r.share o.share_id)
      then denied (http_error 403 (text "sharing group mismatch"))
      else admitted caller
]

-- `storeError`.
unfoldable pub store_error : Error → Response
store_error invalid_hash = http_error 400 (text "Bad Request")
store_error not_exist = http_error 404 (text "Not Found")
store_error quota_exceeded = http_error 507 (text "Insufficient Storage")
store_error not_owner = http_error 403 (text "Forbidden")
store_error (failed _) = http_error 500 (text "Internal Server Error")

-- `GET /v1/info`.
unfoldable pub handle_info : Options → ℕ → Bytes → Bytes → Env → Dir → Response
handle_info o quota os arch env d = elim (LocalStore.usage_locked env d) [
  | err _ ↦ http_error 503 (text "storage unavailable")
  | ok used ↦ record {
    status = 200;
    answer = info (record {
      service = text "dstore";
      protocol_version = Protocol.version;
      name = o.name;
      os = os;
      arch = arch;
      share_id = o.share_id;
      storage = not o.read_only;
      used_bytes = pos used;
      quota_bytes = pos quota;
      max_shard_bytes = shard_limit o;
    });
  }
]

pub data BodyRead : Type 0 where
  complete : Bytes → BodyRead
  too_large unreadable : BodyRead

-- `io.ReadAll` over `http.MaxBytesReader`.
unfoldable pub read_body : ℕ → Body → BodyRead
read_body limit (full s) = if ltb limit (length s) then too_large else complete s
read_body limit (broken s) = if ltb limit (length s) then too_large else unreadable

abbrev pub shards_prefix : Bytes
shards_prefix = text "/shards/"

module _ (sha : Sha256) (o : Options) (quota : ℕ) where
  unfoldable pub handle_get : Env → Bytes → Dir → Response
  handle_get env h d = elim (LocalStore.get sha env.read_fails h d) [
    | err e ↦ store_error e
    | ok content ↦ record { status = 200; answer = shard content }
  ]

  -- The upload of a body that was read.
  unfoldable pub store_body : Env → Bytes → Bytes → Bytes → Dir → Response × Dir
  store_body env caller h body d =
      if not (equal (hash sha body) h)
      then (http_error 400 (text "shard hash does not match request path"), d)
      else (let (r, d') = LocalStore.put_owned sha quota env body caller d in
          elim r [
            | err e ↦ (store_error e, d')
            | ok _ ↦ (record { status = 201; answer = nothing }, d')
          ])

  unfoldable pub handle_put : Env → Bytes → Bytes → Body → Dir → Response × Dir
  handle_put env caller h body d =
      if o.read_only
      then (http_error 403 (text "device does not contribute storage"), d)
      else elim (read_body (pos_part (shard_limit o)) body) [
        | unreadable ↦ (http_error 400 (text "read body"), d)
        | too_large ↦ (http_error 413 (text "shard exceeds size limit"), d)
        | complete s ↦ store_body env caller h s d
      ]

  unfoldable pub handle_delete : Env → Bytes → Bytes → Dir → Response × Dir
  handle_delete env caller h d = elim o.identify [
    | none ↦ (http_error 403 (text "delete requires mesh identity"), d)
    | some _ ↦
        let (r, d') = LocalStore.delete_owned env h caller d in
        elim r [
          | err e ↦ (store_error e, d')
          | ok _ ↦ (record { status = 204; answer = nothing }, d')
        ]
  ]

  -- The switch over the method, at a path that names a shard.
  unfoldable pub handle_shard : Env → Bytes → Bytes → Request → Dir → Response × Dir
  handle_shard env caller h r d =
      if equal r.method (text "GET")
      then (handle_get env h d, d)
      else if equal r.method (text "PUT")
      then handle_put env caller h r.body d
      else if equal r.method (text "DELETE")
      then handle_delete env caller h d
      else (http_error 405 (text "method not allowed"), d)

  -- What follows the admission of the caller.
  unfoldable pub route : Bytes → Bytes → Env → Bytes → Request → Dir → Response × Dir
  route os arch env caller r d =
      if equal r.path (text "/v1/info") && equal r.method (text "GET")
      then (handle_info o quota os arch env d, d)
      else if not (has_prefix r.path shards_prefix)
      then (http_error 404 (text "404 page not found"), d)
      else let h = trim_prefix r.path shards_prefix in
        if not (length h == 64) || contains_any h (b'/' ∷ b'\\' ∷ [])
        then (http_error 400 (text "invalid shard hash"), d)
        else handle_shard env caller h r d

  -- `HandlerWithOptions`.
  unfoldable pub handle : Bytes → Bytes → Env → Request → Dir → Response × Dir
  handle os arch env r d = elim (admit o r) [
    | denied response ↦ (response, d)
    | admitted caller ↦ route os arch env caller r d
  ]
