-- ===== src/Tests/Store.antt =====
-- Runs of the store, of the writes below it and of the codecs.
use peertopeer.Prelude.{◌≤◌, ◌≡◌, ◌≢◌, refl, true, false, arith, ◌||◌}
use peertopeer.Prelude.{none, some, [], ◌∷◌, inr, if◌then◌else◌}
use peertopeer.Prelude.{ok, err, quota_exceeded}
use peertopeer.Prelude.Text.{Bytes, text, equal}
use peertopeer.Prelude.Dict.{lookup, erase}
use peertopeer.AtomicFile.{write_new, Dir, Faults, no_faults, write_new_from}
use peertopeer.AtomicFile.Publish.{
  Left, Published, write_new_from-keeps, write_new_from-ok, write_new_from-error,
}
use peertopeer.Digest.{hash, hex_encode, hex_decode, valid_hash, hex_decode-hex_encode}
use peertopeer.LocalStore.{owner_name, usage, put_owned, get, delete_owned}
use peertopeer.LocalStore.Integrity.{get-hash, put_owned-keeps, get-put_owned}
use peertopeer.LocalStore.Quota.{usage-put_owned}
use peertopeer.LocalStore.Owners.{
  delete_owned-ok, delete_owned-stranger, put_owned-error, delete_owned-half,
}
use peertopeer.Tests.Params.{content, sealed, sha, name, hash-sealed, env}

abbrev alice : Bytes
alice = text "alice"

abbrev bob : Bytes
bob = text "bob"

-- The store after an upload of `alice`.
abbrev stored : Dir
stored = (owner_name name, alice) ∷ (name, sealed) ∷ []

abbrev note : Dir
note = (text "note", content) ∷ []

put_owned-run : put_owned sha 100 env sealed alice [] ≡ (ok name, stored)
unfolding lookup equal hash hex_encode hex_decode valid_hash put_owned usage write_new erase
put_owned-run = refl

-- The rest of the quota is too small.
put_owned-full : put_owned sha 17 env sealed alice [] ≡ (err quota_exceeded, [])
unfolding lookup equal hash hex_encode hex_decode valid_hash put_owned usage write_new erase
put_owned-full = refl

write_new_from-keeps-run :
    lookup (text "note") (write_new_from no_faults (text "t") (text "x") (ok alice) note).1
    ≡ some content
unfolding lookup equal write_new_from
write_new_from-keeps-run =
    write_new_from-keeps no_faults (text "t") (text "x") (ok alice) note (text "note") content refl

-- The removal of the temporary file fails.
abbrev unremoved : Faults
unremoved = record no_faults { remove = true }

write_new_from-ok_example :
    (base : Dir) × Left unremoved (text "t") note base
    × Published
        (text "x")
        (ok alice)
        base
        (write_new_from unremoved (text "t") (text "x") (ok alice) note).1
unfolding lookup equal write_new_from
write_new_from-ok_example = write_new_from-ok unremoved (text "t") (text "x") (ok alice) note refl

write_new_from-error_example :
    Left
      (record unremoved { sync = true })
      (text "t")
      note
      (write_new_from (record unremoved { sync = true }) (text "t") (text "x") (ok alice) note).1
unfolding lookup equal write_new_from
write_new_from-error_example =
    write_new_from-error (record unremoved { sync = true }) (text "t") (text "x") (ok alice) note
      refl (λ e. cc)

hex_decode-hex_encode-run : hex_decode (hex_encode content) ≡ some content
hex_decode-hex_encode-run = hex_decode-hex_encode content (omega arith, (omega arith, tt))

get-hash-run : hash sha sealed ≡ name
unfolding lookup equal hash hex_encode hex_decode valid_hash put_owned get delete_owned usage
    write_new erase
get-hash-run = get-hash sha false name sealed stored refl

put_owned-keeps-run :
    lookup (text "note") (put_owned sha 100 env sealed alice note).1 ≡ some content
unfolding lookup equal hash hex_encode hex_decode valid_hash put_owned get delete_owned usage
    write_new erase
put_owned-keeps-run = put_owned-keeps sha 100 env sealed alice note (text "note") content refl

get-put_owned-run :
    (name ≡ hash sha sealed)
    × (get sha false name (put_owned sha 100 env sealed alice []).1 ≡ ok sealed)
unfolding lookup equal hash hex_encode hex_decode valid_hash put_owned get delete_owned usage
    write_new erase
get-put_owned-run = get-put_owned sha 100 env sealed alice [] name hash-sealed refl

usage-put_owned-run : usage (put_owned sha 20 env sealed alice note).1 ≤ 20
unfolding lookup equal hash hex_encode hex_decode valid_hash put_owned get delete_owned usage
    write_new erase
usage-put_owned-run = usage-put_owned sha 20 env sealed alice note (omega arith) (omega arith)

delete_owned-ok_example :
    (lookup (owner_name name) stored ≡ some alice)
    × (false ≡ false)
    × ((k : Bytes)
        → lookup k (delete_owned env name alice stored).1
          ≡ (if equal name k || equal (owner_name name) k then none else lookup k stored))
unfolding lookup equal hash hex_encode hex_decode valid_hash put_owned get delete_owned usage
    write_new erase
delete_owned-ok_example = delete_owned-ok env name alice stored refl

delete_owned-stranger-run :
    ((delete_owned env name bob stored).0 ≢ ok tt) × ((delete_owned env name bob stored).1 ≡ stored)
unfolding lookup equal hash hex_encode hex_decode valid_hash put_owned get delete_owned usage
    write_new erase
delete_owned-stranger-run = delete_owned-stranger env name bob alice stored refl (inr (λ e. cc))

put_owned-error_example : (put_owned sha 17 env sealed alice note).1 ≡ note
unfolding lookup equal hash hex_encode hex_decode valid_hash put_owned get delete_owned usage
    write_new erase
put_owned-error_example =
    put_owned-error sha 17 env sealed alice note quota_exceeded refl refl refl refl refl refl

delete_owned-half_example :
    (lookup name (delete_owned (record env { remove_owner_fails = true }) name alice stored).1
      ≡ none)
    × ((put_owned sha 100 env sealed bob
          (delete_owned (record env { remove_owner_fails = true }) name alice stored).1).0
        ≢ ok name)
unfolding lookup equal hash hex_encode hex_decode valid_hash put_owned get delete_owned usage
    write_new erase
delete_owned-half_example =
    delete_owned-half sha (record env { remove_owner_fails = true }) env 100 sealed alice bob name
      stored refl refl refl refl refl
