-- ===== src/Probe/Tests.antt =====
-- Requests to a manager with some probes. A checker is a pair of what IsValid answers.
use go_toolkits.Base.{ℕ, ◌<◌, ◌≡◌, ◌≢◌, ◌⊎◌, refl, Bool, true, false, List, [], ◌∷◌, map}
use go_toolkits.Base.Bytes.{Bytes, codes}
use go_toolkits.Probe.{type_string, new_manager, with_address, serve_http}
use go_toolkits.Probe.Registry.{register_all, of_type, Answered, serve_http-register_all}

abbrev itself : Bool × Bytes → Bool × Bytes
itself c = c

abbrev probes : List (ℕ × (Bool × Bytes))
probes =
    (0, (true, [])) ∷ (1, (true, [])) ∷ (1, (false, codes "db")) ∷ (1, (false, codes "cache")) ∷ []

serve_http-register_all_example :
    let w =
      serve_http itself
        (codes "ready")
        (register_all probes (new_manager (map with_address (codes ":80" ∷ [])))) in
    ((t : ℕ) × (t < 3) × (codes "ready" ≡ type_string t) × Answered itself (of_type t probes) w)
    ⊎ (((t : ℕ) → t < 3 → codes "ready" ≢ type_string t) × (w.status ≡ 400))
serve_http-register_all_example =
    serve_http-register_all itself (codes ":80" ∷ []) probes (codes "ready")

not_ready :
    (serve_http itself (codes "ready") (register_all probes (new_manager []))).body ≡ codes "db"
unfolding serve_http go_toolkits.Base.Bytes.same type_string go_toolkits.Probe.respond
    go_toolkits.Probe.check_probe go_toolkits.Probe.check_each go_toolkits.Base.Assoc.lookup
    go_toolkits.Probe.register_probe go_toolkits.Base.Assoc.insert new_manager
    go_toolkits.Probe.init_server go_toolkits.Probe.apply_options
not_ready = refl

alive : (serve_http itself (codes "live") (register_all probes (new_manager []))).status ≡ 200
unfolding serve_http go_toolkits.Base.Bytes.same type_string go_toolkits.Probe.respond
    go_toolkits.Probe.check_probe go_toolkits.Probe.check_each go_toolkits.Base.Assoc.lookup
    go_toolkits.Probe.register_probe go_toolkits.Base.Assoc.insert new_manager
    go_toolkits.Probe.init_server go_toolkits.Probe.apply_options
alive = refl
