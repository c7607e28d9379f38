-- ===== src/Client/Options.antt =====
-- client/options.go: the options of `ConnectViaProxy`. A dial option is a value of the gRPC library, of
-- a type that is a parameter.
pub mod Collected
use go_grpc_http.Common.{
  Bool, true, false, List, [], ◌∷◌, ◌++◌, Bytes, ◌≡◌, refl, sym, ◌∙◌, append_assoc, append-nil,
}

pub record ConnectOptions (DialOption : Type 0) : Type 0 where
  pub dial_opts : List DialOption
  pub extra_h2_alpns : List Bytes
  pub force_http2 : Bool
  pub force_downgrade : Bool
  pub use_web_socket : Bool
  pub content_type : Bytes

-- The values of `ConnectOption`, with the names of the functions that make them.
pub data ConnectOption (DialOption : Type 0) : Type 0 where
  dial : List DialOption → ConnectOption DialOption
  alpns : List Bytes → ConnectOption DialOption
  force_two : ConnectOption DialOption
  web_socket : Bool → ConnectOption DialOption
  downgrade : Bool → ConnectOption DialOption
  with_content_type : Bytes → ConnectOption DialOption

-- The methods `apply`.
unfoldable pub apply :
    {DialOption : Type 0}
    → ConnectOption DialOption
    → ConnectOptions DialOption
    → ConnectOptions DialOption
apply (dial os) opts = record opts { dial_opts = opts.dial_opts ++ os }
apply (alpns as') opts = record opts { extra_h2_alpns = opts.extra_h2_alpns ++ as' }
apply force_two opts = record opts { force_http2 = true }
apply (web_socket b) opts = record opts { use_web_socket = b }
apply (downgrade b) opts = record opts { force_downgrade = b }
apply (with_content_type ct) opts = record opts { content_type = ct }

-- `for _, opt := range opts` in `ConnectViaProxy`, and the options it begins with.
unfoldable pub apply_all :
    {DialOption : Type 0}
    → ConnectOptions DialOption
    → List (ConnectOption DialOption)
    → ConnectOptions DialOption
apply_all o [] = o
apply_all o (opt ∷ opts) = apply_all (apply opt o) opts

abbrev pub no_options : {DialOption : Type 0} → ConnectOptions DialOption
no_options = record {
  dial_opts = [];
  extra_h2_alpns = [];
  force_http2 = false;
  force_downgrade = false;
  use_web_socket = false;
  content_type = [];
}

-- All the dial options of a list of options, and all the ALPN names, in order.
abbrev pub dialled : {DialOption : Type 0} → List (ConnectOption DialOption) → List DialOption
dialled [] = []
dialled (dial os ∷ opts) = os ++ dialled opts
dialled (_ ∷ opts) = dialled opts

abbrev pub named : {DialOption : Type 0} → List (ConnectOption DialOption) → List Bytes
named [] = []
named (alpns as' ∷ opts) = as' ++ named opts
named (_ ∷ opts) = named opts

-- The content type of the last option that sets one.
abbrev pub last_content_type :
    {DialOption : Type 0} → Bytes → List (ConnectOption DialOption) → Bytes
last_content_type ct [] = ct
last_content_type ct (with_content_type ct' ∷ opts) = last_content_type ct' opts
last_content_type ct (_ ∷ opts) = last_content_type ct opts

-- Applied one after the other to any options, the dial options and the ALPN names of all of them are
-- collected in order, and the last content type counts.
pub apply_all_lem :
    {DialOption : Type 0} (opts : List (ConnectOption DialOption)) (o : ConnectOptions DialOption)
    → ((apply_all o opts).dial_opts ≡ o.dial_opts ++ dialled opts)
      × ((apply_all o opts).extra_h2_alpns ≡ o.extra_h2_alpns ++ named opts)
      × ((apply_all o opts).content_type ≡ last_content_type o.content_type opts)
unfolding apply_all apply
apply_all_lem [] o = (sym (append-nil o.dial_opts), sym (append-nil o.extra_h2_alpns), refl)
apply_all_lem (dial os ∷ opts) o =
    let (d, a, c) = apply_all_lem opts (apply (dial os) o) in
    (d ∙ append_assoc o.dial_opts os (dialled opts), a, c)
apply_all_lem (alpns as' ∷ opts) o =
    let (d, a, c) = apply_all_lem opts (apply (alpns as') o) in
    (d, a ∙ append_assoc o.extra_h2_alpns as' (named opts), c)
apply_all_lem (force_two ∷ opts) o = apply_all_lem opts (apply force_two o)
apply_all_lem (web_socket b ∷ opts) o = apply_all_lem opts (apply (web_socket b) o)
apply_all_lem (downgrade b ∷ opts) o = apply_all_lem opts (apply (downgrade b) o)
apply_all_lem (with_content_type ct ∷ opts) o = apply_all_lem opts (apply (with_content_type ct) o)
