-- ===== src/Microtools/Tests.antt =====
-- Runs of InitCmd, of readVersionInfo and of GetContextServerName, and the theorems at them.
use go_toolkits.Base.{
  ℕ, ◌≡◌, refl, ◌↔◌, true, false, Option, none, some, List, [], ◌∷◌, ◌++◌, if◌then◌else◌,
}
use go_toolkits.Base.Bytes.{Bytes, codes, same, contains_byte}
use go_toolkits.Cli.{Parsed, duration, invalid, read_flags}
use go_toolkits.Log.Query.{trim_space}
use go_toolkits.Microtools.{
  Context, init_cmd, read_version_info, prefix_of, get_service_prefix, read_options,
  get_context_server_name,
}
use go_toolkits.Microtools.ServerName.{get_context_server_name_iff}

abbrev flags : go_toolkits.Cli.Context
flags = record {
  string = λ n. if same n (codes "server_name") then codes "quote" else [];
  int = λ n. 0;
}

get_context_server_name_iff_example :
    (get_context_server_name (some ((read_flags flags).service_name ∷ []))
      ≡ (read_flags flags).server_name)
    ↔ (contains_byte (codes "quote") b'-' ≡ false)
unfolding same
get_context_server_name_iff_example = get_context_server_name_iff flags b'q' (codes "uote") refl

abbrev options : Context
options = record {
  string = λ n. if same n (codes "server_name") then codes "a-b" else [];
  int = λ n. 0;
  string_slice = λ n. [];
}

abbrev version_file : Option (List Bytes)
version_file = some (codes "version: 1" ∷ codes "env:dev" ∷ codes "version: 2 " ∷ [])

versions : read_version_info version_file ≡ (trim_space (codes " 2 "), trim_space (codes "dev"))
unfolding read_version_info go_toolkits.Microtools.read_lines go_toolkits.Microtools.read_line
    go_toolkits.Base.Bytes.has_prefix
versions = refl

dashed_server : get_context_server_name (some (codes "go-a-b" ∷ [])) ≡ codes "b"
unfolding get_context_server_name go_toolkits.Cli.get_context_service
    go_toolkits.Microtools.behind_dash go_toolkits.Microtools.last_dash
dashed_server = refl

abbrev parse : Bytes → Parsed ℕ
parse s = invalid 1

version_of_init :
    (init_cmd parse (λ c. none) version_file options).0.version ≡ trim_space (codes " 2 ")
unfolding init_cmd same go_toolkits.Microtools.finish read_version_info
    go_toolkits.Microtools.read_lines go_toolkits.Microtools.read_line
    go_toolkits.Base.Bytes.has_prefix
version_of_init = refl

prefixed : prefix_of (codes "a" ∷ [] ∷ codes "b" ∷ []) ≡ codes "a-b-"
unfolding prefix_of go_toolkits.Microtools.format_strings go_toolkits.Microtools.format_from
prefixed = refl

service_prefix : get_service_prefix (read_options options) ≡ codes "a-b-"
unfolding get_service_prefix read_options go_toolkits.Microtools.format_strings
    go_toolkits.Microtools.format_from same
service_prefix = refl
