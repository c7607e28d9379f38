-- ===== src/Trailers.antt =====
-- The trailers of a response, as `Finalize` of internal/grpcweb/response_writer.go and `Close` of
-- server/websocket_writer.go collect them with the same statements.
use go_grpc_http.Common.{none, some, List, [], ◌∷◌, ◌++◌, if◌then◌else◌, length, drop, Bytes, codes}
use go_grpc_http.Http.{Header, values, store, delete, or_empty, canonical_header_key}
use go_grpc_http.Strings.{has_prefix}

-- `http.TrailerPrefix`.
abbrev pub trailer_prefix : Bytes
trailer_prefix = codes "Trailer:"

-- The announced trailers, with their values in the header: a missing one has none.
unfoldable pub announced_values : Header → List Bytes → Header → Header
announced_values hdr [] trailers = trailers
announced_values hdr (at' ∷ ats) trailers =
    let key = canonical_header_key at' in
    announced_values hdr ats (store trailers key (or_empty (values hdr key)))

-- The name of an unannounced trailer.
abbrev pub trailer_name : Bytes → Bytes
trailer_name k = canonical_header_key (drop (length trailer_prefix) k)

-- The header and the trailers, where these are two maps.
abbrev pub Maps : Type 0
Maps = Header × Header

-- One field of the loop over the header: an unannounced trailer moves to the trailers.
unfoldable pub move_field : Bytes → Maps → Maps
move_field k (hdr, trailers) =
    if has_prefix k trailer_prefix
    then elim (values hdr k) [
      | none ↦ (hdr, trailers)
      | some vs ↦ (
        delete hdr k,
        store trailers (trailer_name k) (or_empty (values trailers (trailer_name k)) ++ vs),
      )
    ]
    else (hdr, trailers)

unfoldable pub move_fields : Header → Maps → Maps
unfolding move_field
move_fields [] maps = maps
move_fields ((k, _) ∷ fields) maps = move_fields fields (move_field k maps)

-- The same where the trailers are the header itself.
unfoldable pub rename_field : Bytes → Header → Header
rename_field k hdr =
    if has_prefix k trailer_prefix
    then elim (values hdr k) [
      | none ↦ hdr
      | some vs ↦
          delete (store hdr (trailer_name k) (or_empty (values hdr (trailer_name k)) ++ vs)) k
    ]
    else hdr

unfoldable pub rename_fields : Header → Header → Header
unfolding rename_field
rename_fields [] hdr = hdr
rename_fields ((k, _) ∷ fields) hdr = rename_fields fields (rename_field k hdr)

-- `delete(trailers, "Trailer")`, and the loop, of a response without announced trailers.
unfoldable pub trailers_only : Header → Header
unfolding rename_fields
trailers_only hdr = let h = delete hdr (codes "Trailer") in rename_fields h h

-- The header and the trailers of a response with announced trailers.
unfoldable pub split_trailers : Header → List Bytes → Maps
unfolding announced_values move_fields
split_trailers hdr announced = move_fields hdr (hdr, announced_values hdr announced [])
