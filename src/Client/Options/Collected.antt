-- ===== src/Client/Options/Collected.antt =====
-- client/options.go: all that a list of options adds to the options before.
use go_grpc_http.Common.{
  Bool, true, List, [], ◌∷◌, ◌++◌, ◌≡◌, sym, ap, ◌∙◌, append_assoc, append-nil,
}
use go_grpc_http.Client.Options.{
  ConnectOptions, ConnectOption, dial, alpns, force_two, web_socket, downgrade, with_content_type,
  apply, apply_all, dialled, named, last_content_type,
}

-- The last options of three kinds.
abbrev pub last_web_socket : {DialOption : Type 0} → Bool → List (ConnectOption DialOption) → Bool
last_web_socket b [] = b
last_web_socket b (web_socket b' ∷ opts) = last_web_socket b' opts
last_web_socket b (_ ∷ opts) = last_web_socket b opts

abbrev pub last_downgrade : {DialOption : Type 0} → Bool → List (ConnectOption DialOption) → Bool
last_downgrade b [] = b
last_downgrade b (downgrade b' ∷ opts) = last_downgrade b' opts
last_downgrade b (_ ∷ opts) = last_downgrade b opts

abbrev pub forces_http2 : {DialOption : Type 0} → Bool → List (ConnectOption DialOption) → Bool
forces_http2 b [] = b
forces_http2 b (force_two ∷ opts) = forces_http2 true opts
forces_http2 b (_ ∷ opts) = forces_http2 b opts

-- The options, with what a list of them adds.
abbrev pub collected :
    {DialOption : Type 0}
    → ConnectOptions DialOption
    → List (ConnectOption DialOption)
    → ConnectOptions DialOption
collected o opts = record {
  dial_opts = o.dial_opts ++ dialled opts;
  extra_h2_alpns = o.extra_h2_alpns ++ named opts;
  force_http2 = forces_http2 o.force_http2 opts;
  force_downgrade = last_downgrade o.force_downgrade opts;
  use_web_socket = last_web_socket o.use_web_socket opts;
  content_type = last_content_type o.content_type opts;
}

pub apply_all-collected :
    {DialOption : Type 0} (opts : List (ConnectOption DialOption)) (o : ConnectOptions DialOption)
    → apply_all o opts ≡ collected o opts
unfolding apply_all apply
apply_all-collected [] o =
    ap (λ ds. record o { dial_opts = ds }) (sym (append-nil o.dial_opts))
    ∙ ap (λ as'. record o { dial_opts = o.dial_opts ++ []; extra_h2_alpns = as' })
        (sym (append-nil o.extra_h2_alpns))
apply_all-collected (dial os ∷ opts) o =
    apply_all-collected opts (apply (dial os) o)
    ∙ ap (λ ds. record (collected o (dial os ∷ opts)) { dial_opts = ds })
        (append_assoc o.dial_opts os (dialled opts))
apply_all-collected (alpns as' ∷ opts) o =
    apply_all-collected opts (apply (alpns as') o)
    ∙ ap (λ ns. record (collected o (alpns as' ∷ opts)) { extra_h2_alpns = ns })
        (append_assoc o.extra_h2_alpns as' (named opts))
apply_all-collected (force_two ∷ opts) o = apply_all-collected opts (apply force_two o)
apply_all-collected (web_socket b ∷ opts) o = apply_all-collected opts (apply (web_socket b) o)
apply_all-collected (downgrade b ∷ opts) o = apply_all-collected opts (apply (downgrade b) o)
apply_all-collected (with_content_type ct ∷ opts) o =
    apply_all-collected opts (apply (with_content_type ct) o)
