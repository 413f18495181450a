-- ===== src/Cli/Node/Laws.antt =====
-- What a device that was set up by `init` does for its owner.
use peertopeer.Prelude.{
  ◌≡◌, refl, Bool, true, false, ◌&&◌, not, List, [], ◌∷◌, ◌++◌, some, arith, inl, is_nil, sym, ◌∙◌,
  subst,
}
use peertopeer.Prelude.{Result, Status, ok, ◌>>◌, Result-cases, inr, Bool-cases}
use peertopeer.Prelude.Text.{Bytes, is_empty, equal_refl, to_lower, trim_space}
use peertopeer.Prelude.Dict.{lookup}
use peertopeer.AtomicFile.{Dir, Faults}
use peertopeer.FilePath.{dir}
use peertopeer.Digest.{Sha256}
use peertopeer.Erasure.{ReedSolomon}
use peertopeer.CryptoFile.{Aead}
use peertopeer.Manifest
use peertopeer.NodeConfig.{Config, Json, single, absolute, anchored, load, validate, save_new}
use peertopeer.NodeConfig.Valid.{validate-IsValid}
use peertopeer.NodeConfig.RoundTrip.{load_saved}
use peertopeer.ShardServer.{Request, admit, admitted, caller_of, is_member}
use peertopeer.Dstore.Placement.{Mesh}
use peertopeer.Dstore.Transfer.{Net}
use peertopeer.Dstore.Process
use peertopeer.Dstore.Process.{Inputs, Run}
use peertopeer.Dstore.Pipeline.{process_file}
use peertopeer.Dstore.Original.{process_file-keeps}
use peertopeer.Cli.{parse_peers, parse_exclude_list}
use peertopeer.Cli.Node.{configured_pipeline, with_members, run_init, server_options}

-- A configured device keeps every file that it processes, and every other file beside it.
pub process_file-configured_pipeline :
    (node : Config) (c : Process.Config) (sha : Sha256) {W : Type 0} (net : Net W) (a : Aead)
    (rs : ReedSolomon) (x : Inputs) (json : Manifest.Json) (mesh : Mesh) (path stub_path : Bytes)
    (s : Run W) (files : Dir) (k v : Bytes)
    → configured_pipeline node ≡ ok c
    → lookup k files ≡ some v
    → lookup k (process_file sha c net a rs x json mesh path stub_path s files).2 ≡ some v
unfolding configured_pipeline
process_file-configured_pipeline node c sha net a rs x json mesh path stub_path s files k v made h =
    process_file-keeps sha c net a rs x json path stub_path mesh s files k v (inl keeps) h
  where
    keeps : c.keep_original ≡ true
    keeps = elim (Result-cases (parse_peers node.peers)) [
      | inr (e, bad) ↦ ground arith
      | inl ((peers, ports), good) ↦ ground arith
    ]

is_member-append :
    (members : List Bytes) (name : Bytes)
    → is_member (members ++ name ∷ []) (trim_space name) ≡ true
unfolding is_member
is_member-append [] name = ground (arith, equal_refl (to_lower (trim_space name)))
is_member-append (m ∷ members) name = ground (arith, is_member-append members name)

run_init-save_new :
    (json : Json) (f : Faults) (tmp path : Bytes) (c : Config) (members : Bytes) (extra : Bool)
    (files : Dir)
    → (run_init json f tmp path c members extra files).0 ≡ ok tt
    → (run_init json f tmp path c members extra files)
      ≡ save_new json f tmp path (with_members c (parse_exclude_list members)) files
unfolding run_init
run_init-save_new json f tmp path c members extra files h = elim (Bool-cases extra) [
  | inl e ↦ ground arith
  | inr e₁ ↦ elim (Bool-cases (not c.allow_mesh && is_nil (parse_exclude_list members))) [
    | inl e ↦ ground arith
    | inr e₂ ↦ elim (Result-cases (parse_peers c.peers)) [
      | inr (e, bad) ↦ ground arith
      | inl (p, good) ↦ ground arith
    ]
  ]
]

admit_self :
    (who_is : Bytes → Result Bytes) (c : Config) (members : List Bytes) (r : Request)
    → c.members ≡ members ++ c.name ∷ []
    → is_empty (trim_space c.name) ≡ false
    → who_is r.remote_addr ≡ ok (trim_space c.name)
    → r.share ≡ c.share_id
    → admit (server_options who_is c) r ≡ admitted (trim_space c.name)
unfolding admit caller_of server_options
admit_self who_is c members r m n who share =
    let member : is_member c.members (trim_space c.name) ≡ true =
      rw m (is_member-append members c.name) in
    ground (arith, member, who, share, n, equal_refl c.share_id)

validated :
    (c loaded : Config) → (validate c >> ok c) ≡ ok loaded → (validate c ≡ ok tt) × (c ≡ loaded)
validated c loaded h = (ground arith, ground arith)

-- A device that `init` has set up, and that has loaded its configuration, admits the requests of its
-- own client: those that the mesh identifies by the device's name, with the header of its sharing
-- group. The decoder is taken to read back what was written, and the file's absolute path is found.
pub admit-run_init :
    (json : Json) (f : Faults) (tmp path : Bytes) (c : Config) (members : Bytes) (extra : Bool)
    (files : Dir) (working_dir : Result Bytes) (full : Bytes) (loaded : Config)
    (who_is : Bytes → Result Bytes) (r : Request)
    → (run_init json f tmp path c members extra files).0 ≡ ok tt
    → let saved = with_members c (parse_exclude_list members) in
      json.decode (json.marshal_indent saved ++ 10 ∷ []) ≡ single saved
      → absolute working_dir path ≡ ok full
      → load json working_dir path (run_init json f tmp path c members extra files).1 ≡ ok loaded
      → who_is r.remote_addr ≡ ok (trim_space c.name)
      → r.share ≡ c.share_id
      → admit (server_options who_is loaded) r ≡ admitted (trim_space c.name)
unfolding anchored with_members
admit-run_init json f tmp path c members extra files working_dir full loaded who_is r done law found
      read who share =
    let saved = with_members c (parse_exclude_list members) in
    let same = run_init-save_new json f tmp path c members extra files done in
    let ready : (save_new json f tmp path saved files).0 ≡ ok tt =
      subst (λ (o : Status × Dir). o.0 ≡ ok tt) same done in
    let loads : load json working_dir path (save_new json f tmp path saved files).1 ≡ ok loaded =
      subst (λ (o : Status × Dir). load json working_dir path o.1 ≡ ok loaded) same read in
    let (valid, result) =
      validated (anchored (dir full) saved) loaded
        (sym (load_saved json f tmp path saved files working_dir full ready law found) ∙ loads) in
    let v = validate-IsValid (anchored (dir full) saved) valid in
    rw (← result) (
      admit_self who_is (anchored (dir full) saved) (parse_exclude_list members) r refl v.name who
        share)
