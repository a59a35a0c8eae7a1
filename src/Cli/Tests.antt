-- ===== src/Cli/Tests.antt =====
-- Runs of Init and of the names, and the theorems at them.
use go_toolkits.Base.{ℕ, ◌≡◌, refl, List, [], ◌∷◌, if◌then◌else◌}
use go_toolkits.Base.Bytes.{Bytes, codes, same}
use go_toolkits.Cli.{
  Context, ServerFlags, no_flags, format_strings, Parsed, duration, invalid, acts, act, init,
  prefix_of, get_service_prefix, with_service_context, read_flags,
}
use go_toolkits.Cli.Flags.{act-Agree}

-- A context with a server name and a time limit, and as it is with a transport.
abbrev named : Context
named = record {
  string = λ n.
      if same n (codes "server_name")
      then codes "quote"
      else if same n (codes "client_request_timeout")
      then codes "5s"
      else [];
  int = λ n. 60;
}

abbrev transported : Context
transported = record {
  string = λ n. if same n (codes "transport") then codes "http" else named.string n;
  int = λ n. 60;
}

abbrev parse : Bytes → Parsed ℕ
parse s = if same s (codes "5s") then duration 5000000000 else invalid 1

act-Agree_example : act parse named ≡ act parse transported
unfolding same
act-Agree_example = act-Agree parse named transported (
  refl,
  (
    refl,
    (
      refl,
      (
        refl,
        (
          refl,
          (
            refl,
            (
              refl,
              (
                refl,
                (
                  refl,
                  (
                    refl,
                    (
                      refl,
                      (
                        refl,
                        (refl, (refl, (refl, (refl, (refl, (refl, (refl, (refl, (refl, tt))))))))),
                      ),
                    ),
                  ),
                ),
              ),
            ),
          ),
        ),
      ),
    ),
  ),
)

abbrev words : List Bytes
words = codes "a" ∷ [] ∷ codes "b" ∷ []

prefixed : prefix_of words ≡ codes "a-b-"
unfolding prefix_of format_strings go_toolkits.Cli.format_from
prefixed = refl

flags_of_init : (init parse (acts named) no_flags).0.register_ttl ≡ 60000000000
unfolding init act same go_toolkits.Cli.with_timeout read_flags
flags_of_init = refl

appended : with_service_context (read_flags named) [] ≡ (codes "service", codes "quote") ∷ []
unfolding with_service_context read_flags format_strings go_toolkits.Cli.format_from same
appended = refl

service_prefix : get_service_prefix (read_flags named) ≡ codes "quote-"
unfolding get_service_prefix read_flags format_strings go_toolkits.Cli.format_from same
service_prefix = refl
