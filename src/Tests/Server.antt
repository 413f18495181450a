-- ===== src/Tests/Server.antt =====
-- Runs of the HTTP handler.
use peertopeer.Prelude.{◌≤◌, ◌≡◌, ◌≢◌, refl, true, false, arith, ◌⊎◌}
use peertopeer.Prelude.{none, some, [], ◌∷◌, ◌++◌, ok}
use peertopeer.Prelude.Text.{
  Bytes, text, equal, has_prefix, trim_prefix, contains_any, to_lower, trim_space,
}
use peertopeer.Prelude.Dict.{lookup, erase}
use peertopeer.Prelude.Int.{pos}
use peertopeer.AtomicFile.{Dir, write_new}
use peertopeer.Digest.{hash, hex_encode, hex_decode, valid_hash}
use peertopeer.LocalStore.{owner_name, usage, put_owned, get, delete_owned}
use peertopeer.LocalStore.Intact.{IsIntact}
use peertopeer.ShardServer.{
  Options, Request, Response, full, shard, admitted, admit, caller_of, handle, is_member, route,
  handle_put, handle_shard, handle_delete, shards_prefix, store_body, read_body, shard_limit,
  handle_get, Answer,
}
use peertopeer.ShardServer.Access.{handle-changes}
use peertopeer.ShardServer.Content.{get-put}
use peertopeer.ShardServer.Sequences.{serve, serve-Owned, serve-quota, serve-IsIntact}
use peertopeer.LocalStore.View.{view}
use peertopeer.ShardServer.Refines.{Reach, serve-Reach}
use peertopeer.Tests.Params.{sealed, sha, name, hash-sealed, env}

abbrev alice : Bytes
alice = text "alice"

-- The mesh knows a device by its address.
abbrev options : Options
options = record {
  identify = some (λ address. ok address);
  members = alice ∷ text "bob" ∷ [];
  restrict_members = true;
  share_id = [];
  name = text "box";
  read_only = false;
  max_shard_bytes = pos 100;
}

abbrev request : Bytes → Bytes → Bytes → Request
request caller method body = record {
  remote_addr = caller;
  share = [];
  method = method;
  path = shards_prefix ++ name;
  body = full body;
}

abbrev upload : Request
upload = request alice (text "PUT") sealed

abbrev download : Request
download = request (text "bob") (text "GET") []

abbrev deletion : Request
deletion = request (text "bob") (text "DELETE") []

abbrev stored : Dir
stored = (owner_name name, alice) ∷ (name, sealed) ∷ []

abbrev served : Request → Dir → Response × Dir
served r d = handle sha options 100 (text "linux") (text "amd64") env r d

upload-run : served upload [] ≡ (record { status = 201; answer = Answer.nothing }, stored)
unfolding lookup equal hash hex_encode hex_decode valid_hash put_owned get delete_owned usage
    write_new erase handle admit caller_of is_member route has_prefix trim_prefix contains_any
    handle_shard handle_put handle_get handle_delete store_body read_body shard_limit to_lower
    trim_space
upload-run = refl

get-put_example :
    (served download (served upload []).1).0 ≡ record { status = 200; answer = shard sealed }
unfolding lookup equal hash hex_encode hex_decode valid_hash put_owned get delete_owned usage
    write_new erase handle admit caller_of is_member route has_prefix trim_prefix contains_any
    handle_shard handle_put handle_get handle_delete store_body read_body shard_limit to_lower
    trim_space
get-put_example =
    get-put sha options 100 (text "linux") (text "amd64") env env upload download [] sealed
      (text "bob") refl refl refl refl refl refl hash-sealed

changed : (served upload []).1 ≢ []
unfolding lookup equal hash hex_encode hex_decode valid_hash put_owned get delete_owned usage
    write_new erase handle admit caller_of is_member route has_prefix trim_prefix contains_any
    handle_shard handle_put handle_get handle_delete store_body read_body shard_limit to_lower
    trim_space
changed = λ e. cc

handle-changes_example :
    ((s : Bytes) × (upload.method ≡ text "PUT")
      × (options.read_only ≡ false)
      × (upload.body ≡ full s)
      × (upload.path ≡ shards_prefix ++ hash sha s))
    ⊎ ((upload.method ≡ text "DELETE") × (options.identify ≢ none))
handle-changes_example =
    handle-changes sha options 100 (text "linux") (text "amd64") env upload [] changed

serve-quota_example :
    usage (
      serve sha options 100 (text "linux") (text "amd64") ((env, upload) ∷ (env, deletion) ∷ []) [])
    ≤ 100
unfolding lookup equal hash hex_encode hex_decode valid_hash put_owned get delete_owned usage
    write_new erase handle admit caller_of is_member route has_prefix trim_prefix contains_any
    handle_shard handle_put handle_get handle_delete store_body read_body shard_limit to_lower
    trim_space
serve-quota_example =
    serve-quota sha options 100 (text "linux") (text "amd64") ((env, upload) ∷ (env, deletion) ∷ [])
      [] (omega arith) (omega arith)

empty : IsIntact sha []
unfolding lookup
empty = record { at_name = λ h c v e. cc }

serve-IsIntact_example :
    IsIntact sha (
      serve sha options 100 (text "linux") (text "amd64") ((env, upload) ∷ (env, deletion) ∷ []) [])
serve-IsIntact_example =
    serve-IsIntact sha options 100 (text "linux") (text "amd64")
      ((env, upload) ∷ (env, deletion) ∷ []) [] empty

other : admit options deletion ≢ admitted alice
unfolding lookup equal hash hex_encode hex_decode valid_hash put_owned get delete_owned usage
    write_new erase handle admit caller_of is_member route has_prefix trim_prefix contains_any
    handle_shard handle_put handle_get handle_delete store_body read_body shard_limit to_lower
    trim_space
other = λ e. cc

serve-Owned_example :
    let d = serve sha options 100 (text "linux") (text "amd64") ((env, deletion) ∷ []) stored in
    (lookup name d ≡ some sealed) × (lookup (owner_name name) d ≡ some alice)
unfolding lookup equal hash hex_encode hex_decode valid_hash put_owned get delete_owned usage
    write_new erase handle admit caller_of is_member route has_prefix trim_prefix contains_any
    handle_shard handle_put handle_get handle_delete store_body read_body shard_limit to_lower
    trim_space
serve-Owned_example =
    serve-Owned sha options 100 (text "linux") (text "amd64") name sealed alice
      ((env, deletion) ∷ []) stored refl (other, tt) (refl, refl)

serve-Reach_example : Reach sha (view []) (
    view (
      serve sha options 100
        (text "linux")
        (text "amd64")
        ((env, upload) ∷ (env, deletion) ∷ [])
        []))
serve-Reach_example =
    serve-Reach sha options 100 (text "linux") (text "amd64") ((env, upload) ∷ (env, deletion) ∷ [])
      []
