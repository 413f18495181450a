-- ===== src/Tests/Config.antt =====
-- Runs on the configuration of a device.
use peertopeer.Prelude.{◌≡◌, refl, false, [], ◌∷◌, Result, Status, ok, ◌>>◌}
use peertopeer.Prelude.Text.{
  Bytes, text, trim_space, trim_left, equal, has_prefix, contains_any, contains_byte, is_space,
}
use peertopeer.Prelude.Dict.{lookup, erase}
use peertopeer.Prelude.Split.{split, join}
use peertopeer.AtomicFile.{Dir, no_faults, write_new, exists}
use peertopeer.FilePath.{
  is_abs, elements, push_elements, push_element, clean, dir, join_path, contains, path_within, rel,
  strip, rel_rest, stays_below,
}
use peertopeer.Manifest.Path.{to_slash}
use peertopeer.NodeConfig.{
  Config, default, Json, single, atoi, digits, check_identity, check_limits, check_members,
  check_apart, check_dirs, validate, absolute, anchor, anchored, load, save_new,
}
use peertopeer.NodeConfig.RoundTrip.{Relocated, load-save_new, IsAnchored, load-save_new_same}
use peertopeer.ShardServer.{Request, full, admit, admitted}
use peertopeer.Cli.{keep_names, parse_exclude_list, parse_peers}
use peertopeer.Cli.Node.{with_members, run_init, server_options}
use peertopeer.Cli.Node.Laws.{admit-run_init}

abbrev plain : Config
unfolding default
plain = default (text "box")

abbrev shared : Config
shared = with_members plain (text "alice" ∷ [])

-- A decoder that reads this one configuration.
abbrev json : Json
json = record { marshal_indent = λ c. text "{}"; decode = λ s. single shared }

abbrev file : Bytes
file = text "/home/alice/box.json"

abbrev saved : Status × Dir
saved = save_new json no_faults (text "/home/alice/.box-1") file shared []

saved-ok : saved.0 ≡ ok tt
unfolding with_members default validate check_identity check_limits check_members check_dirs
    check_apart trim_space trim_left atoi digits equal contains_any contains path_within rel strip
    rel_rest stays_below clean is_abs elements push_elements push_element has_prefix split join
    is_space contains_byte save_new write_new lookup erase exists
saved-ok = refl

full_path : absolute (ok []) file ≡ ok file
unfolding absolute is_abs clean elements push_elements push_element has_prefix split join equal
full_path = refl

load-save_new_example :
    (found : Config) × Relocated (dir file) shared found
    × (load json (ok []) file saved.1 ≡ (validate found >> ok found))
load-save_new_example =
    load-save_new json no_faults (text "/home/alice/.box-1") file shared [] (ok []) file saved-ok
      refl full_path

abbrev loaded : Config
loaded = anchored (dir file) shared

-- A decoder that reads this configuration, and its directories.
abbrev json_loaded : Json
json_loaded = record { marshal_indent = λ c. text "{}"; decode = λ s. single loaded }

saved_loaded-ok :
    (save_new json_loaded no_faults (text "/home/alice/.box-1") file loaded []).0 ≡ ok tt
unfolding with_members default validate check_identity check_limits check_members check_dirs
    check_apart trim_space trim_left atoi digits equal contains_any contains path_within rel strip
    rel_rest stays_below clean is_abs elements push_elements push_element has_prefix split join
    is_space contains_byte save_new write_new lookup erase exists anchored anchor dir join_path
    to_slash
saved_loaded-ok = refl

loaded-IsAnchored : IsAnchored loaded
unfolding with_members default anchored anchor dir join_path is_abs clean elements push_elements
    push_element has_prefix split join equal is_space contains_byte to_slash
loaded-IsAnchored = record { origin = refl; shards = refl; library = refl }

load-save_new_same_example :
    load json_loaded
      (ok [])
      file
      (save_new json_loaded no_faults (text "/home/alice/.box-1") file loaded []).1
    ≡ ok loaded
load-save_new_same_example =
    load-save_new_same json_loaded no_faults (text "/home/alice/.box-1") file loaded [] (ok []) file
      loaded-IsAnchored saved_loaded-ok refl full_path

abbrev initialised : Status × Dir
initialised = run_init json no_faults (text "/home/alice/.box-1") file plain (text "alice") false []

initialised-ok : initialised.0 ≡ ok tt
unfolding with_members default validate check_identity check_limits check_members check_dirs
    check_apart trim_space trim_left atoi digits equal contains_any contains path_within rel strip
    rel_rest stays_below clean is_abs elements push_elements push_element has_prefix split join
    is_space contains_byte save_new write_new lookup erase exists run_init parse_exclude_list
    keep_names parse_peers
initialised-ok = refl

read_back : load json (ok []) file initialised.1 ≡ ok loaded
unfolding with_members default validate check_identity check_limits check_members check_dirs
    check_apart trim_space trim_left atoi digits equal contains_any contains path_within rel strip
    rel_rest stays_below clean is_abs elements push_elements push_element has_prefix split join
    is_space contains_byte save_new write_new lookup erase exists run_init parse_exclude_list
    keep_names parse_peers load absolute anchored anchor dir to_slash join_path
read_back = refl

abbrev request : Request
request = record {
  remote_addr = text "100.1.2.3";
  share = text "personal";
  method = text "GET";
  path = text "/info";
  body = full [];
}

abbrev who_is : Bytes → Result Bytes
who_is address = ok (text "box")

admit-run_init_example : admit (server_options who_is loaded) request ≡ admitted (text "box")
unfolding parse_exclude_list keep_names split trim_space trim_left is_space default
admit-run_init_example =
    admit-run_init json no_faults (text "/home/alice/.box-1") file plain (text "alice") false []
      (ok []) file loaded who_is request initialised-ok refl full_path read_back refl refl
